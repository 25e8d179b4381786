-- ===== src/BasicCoder/Scalars.antt =====
-- couchbase.c: booleans and numbers that were compressed.
use php_couchbase.Base.{
  ℕ, ◌+◌, ◌^◌, ◌<◌, ◌≡◌, ◌≢◌, refl, ap, sym, ◌∙◌, inl, inr, Bool, true, false, Option, none, some,
  arith, Bytes, codes, length,
}
use php_couchbase.Zval.{Zval, bool, long}
use php_couchbase.BasicCoder.{
  Codec, Settings, cffmt, json_format, val_bool, val_long, plain, pack, packed, encode, payload,
  basic_decoder_v1,
}
use php_couchbase.BasicCoder.Packing.{IsLossless, IsSupported, pack-type}
use php_couchbase.BasicCoder.RoundTrip.{
  decoder-decode_bytes, pack-short, decode-zlib, decode-fastlz,
}

module _ (codec : Codec) (lossless : IsLossless codec) where
  -- A text that the compression has changed decodes as its payload does.
  pack-payload :
      (s : Settings) (jsonassoc : Bool) (b : Bytes) (type : ℕ) (z : Option Zval)
      → IsSupported s
      → type < 16
      → length b < 2 ^ 31
      → pack codec s (b, type + cffmt json_format) ≢ (b, type + cffmt json_format)
      → ((f : ℕ) → payload codec jsonassoc f type false b ≡ z)
      → basic_decoder_v1 codec jsonassoc
          (pack codec s (b, type + cffmt json_format)).0
          (pack codec s (b, type + cffmt json_format)).1
        ≡ z
  pack-payload s jsonassoc b type z ok t h changed inside =
      decoder-decode_bytes codec lossless jsonassoc _ _
        (pack-short codec lossless s b type json_format ok h)
      ∙ elim (pack-type codec s b type json_format _ refl) [
        | inl e ↦ absurd (changed e)
        | inr (inl (c, k, x, e)) ↦
            rw e (decode-zlib codec lossless jsonassoc b c type json_format t h k ∙ inside _)
        | inr (inr (k, (m, l), e)) ↦ rw e (
            decode-fastlz codec lossless jsonassoc b type json_format t h
              (omega (arith, ok.threshold m, l))
            ∙ inside _)
      ]

  -- Once it was compressed, false is decoded to true.
  pub compressed_false :
      (s : Settings) (jsonassoc : Bool) (e : Bytes × ℕ)
      → IsSupported s
      → encode codec s (bool false) ≡ some e
      → e.1 ≢ val_bool + cffmt json_format
      → basic_decoder_v1 codec jsonassoc e.0 e.1 ≡ some (bool true)
  unfolding encode plain packed
  compressed_false s jsonassoc e ok made changed =
      let same : pack codec s (codes "false", val_bool + cffmt json_format) ≡ e = cc in
      rw (← same) (
        pack-payload s jsonassoc (codes "false") val_bool (some (bool true)) ok (omega arith)
          (omega arith) (λ k. changed (ap (λ (p : Bytes × ℕ). p.1) (sym same ∙ k)))
          (λ f. unfold payload in refl))

  -- Once it was compressed, an integer whose text is nothing but the number is parsed past the end
  -- of the decompressed text.
  pub compressed_long :
      (s : Settings) (jsonassoc : Bool) (n : ℕ) (e : Bytes × ℕ)
      → IsSupported s
      → length (codec.print_long n) < 2 ^ 31
      → codec.number_ends (codec.print_long n) ≡ false
      → encode codec s (long n) ≡ some e
      → e.1 ≢ val_long + cffmt json_format
      → basic_decoder_v1 codec jsonassoc e.0 e.1 ≡ none
  unfolding encode plain packed
  compressed_long s jsonassoc n e ok h ends made changed =
      let same : pack codec s (codec.print_long n, val_long + cffmt json_format) ≡ e = cc in
      rw (← same) (
        pack-payload s jsonassoc (codec.print_long n) val_long none ok (omega arith) h
          (λ k. changed (ap (λ (p : Bytes × ℕ). p.1) (sym same ∙ k)))
          (λ f. unfold payload in rw ends refl))
