-- ===== src/BasicCoder/RoundTrip.antt =====
-- couchbase.c: what the decoder makes of an encoded value, whether it was compressed or not.
use php_couchbase.Base.{
  ℕ, ◌+◌, ◌*◌, ◌/◌, ◌%◌, ◌^◌, ◌<◌, ◌≤◌, ◌≡◌, refl, ◌∙◌, inl, inr, Bool, true, false, [], ◌∷◌,
  Option, some, arith, Bytes, length, ltb, ◌==◌, if◌then◌else◌,
}
use php_couchbase.Zval.{Zval, null, string, array, object}
use php_couchbase.BasicCoder.{
  Codec, Settings, compression_zlib, compression_fastlz, cffmt, sertype_php, val_string,
  string_format, preamble, plain, pack, packed, encode, payload, unpacked, fastlz_result,
  uncompressed, private_value, decode_bytes, basic_decoder_v1,
}
use php_couchbase.BasicCoder.Packing.{IsLossless, IsSupported, packed_flags, pack-type}

-- The values that a serializer encodes.
abbrev pub is_composite : Zval → Bool
is_composite null = true
is_composite (array es) = true
is_composite (object n) = true
is_composite _ = false

abbrev size_of : ℕ → ℕ
size_of n =
    n % 2 ^ 8
    + n / 2 ^ 8 % 2 ^ 8 * 2 ^ 8
    + n / 2 ^ 16 % 2 ^ 8 * 2 ^ 16
    + n / 2 ^ 24 % 2 ^ 8 * 2 ^ 24

size_of-eq : (n : ℕ) → n < 2 ^ 32 → size_of n ≡ n
size_of-eq n h = omega arith

-- The fields of the flags of a compressed value.
packed_flags_fields :
    (type format k : ℕ)
    → type < 16
    → k < 8
    → (packed_flags type format (k * 2 ^ 5) / 2 ^ 24 % 2 ^ 8 ≡ 1)
      × (packed_flags type format (k * 2 ^ 5) / 2 ^ 4 % 2 ≡ 1)
      × (packed_flags type format (k * 2 ^ 5) / 2 ^ 5 % 2 ^ 3 ≡ k)
      × (packed_flags type format (k * 2 ^ 5) % 2 ^ 4 ≡ type)
packed_flags_fields type format k h b = (omega arith, omega arith, omega arith, omega arith)

-- The serializer of a type, and its inverse.
abbrev pub to_text : Codec → ℕ → Zval → Option Bytes
to_text codec sertype value =
    if sertype == sertype_php then codec.serialize value else codec.json_encode value

abbrev pub from_text : Codec → Bool → ℕ → Bytes → Option Zval
from_text codec jsonassoc sertype b =
    if sertype == sertype_php then codec.unserialize b else codec.json_decode jsonassoc b

module _ (codec : Codec) (lossless : IsLossless codec) where
  short_length : (b : Bytes) → length b < 2 ^ 31 → ltb (length b) (2 ^ 31) ≡ true
  short_length b h = ground arith

  -- A text whose length is an int is decoded as its flags say.
  pub decoder-decode_bytes :
      (jsonassoc : Bool) (b : Bytes) (flags : ℕ)
      → length b < 2 ^ 31
      → basic_decoder_v1 codec jsonassoc b flags ≡ decode_bytes codec jsonassoc b flags
  unfolding basic_decoder_v1
  decoder-decode_bytes jsonassoc b flags h = rw (short_length b h) refl

  fastlz_result-some : (b : Bytes) → 0 < length b → fastlz_result codec b ≡ some b
  unfolding fastlz_result
  fastlz_result-some [] h = elim h [ ]
  fastlz_result-some (x ∷ b) h = refl

  pub decode-zlib :
      (jsonassoc : Bool) (b c : Bytes) (type format : ℕ)
      → type < 16
      → length b < 2 ^ 31
      → codec.compress b ≡ some c
      → decode_bytes codec jsonassoc
          (preamble (length b) c)
          (packed_flags type format compression_zlib)
        ≡ payload codec jsonassoc (packed_flags type format compression_zlib) type false b
  unfolding decode_bytes private_value uncompressed unpacked
  decode-zlib jsonassoc b c type format t h e =
      let f = packed_flags_fields type format 1 t (omega arith) in
      rw
        (
          f.0,
          f.1,
          f.2,
          f.3,
          size_of-eq (length b) (omega arith),
          lossless.zlib_back b c e,
          short_length b h,
        )
        refl

  pub decode-fastlz :
      (jsonassoc : Bool) (b : Bytes) (type format : ℕ)
      → type < 16
      → length b < 2 ^ 31
      → 16 ≤ length b
      → decode_bytes codec jsonassoc
          (preamble (length b) (codec.fastlz_compress b))
          (packed_flags type format compression_fastlz)
        ≡ payload codec jsonassoc (packed_flags type format compression_fastlz) type false b
  unfolding decode_bytes private_value uncompressed unpacked
  decode-fastlz jsonassoc b type format t h p =
      let f = packed_flags_fields type format 2 t (omega arith) in
      rw
        (
          f.0,
          f.1,
          f.2,
          f.3,
          size_of-eq (length b) (omega arith),
          lossless.fastlz_back b p h,
          fastlz_result-some b (omega arith),
          short_length b h,
        )
        refl

  -- The compression makes no text longer.
  pub pack-short :
      (s : Settings) (b : Bytes) (type format : ℕ)
      → IsSupported s
      → length b < 2 ^ 31
      → length (pack codec s (b, type + cffmt format)).0 < 2 ^ 31
  pack-short s b type format ok h = elim (pack-type codec s b type format _ refl) [
    | inl e ↦ rw e h
    | inr (inl (c, k, x, e)) ↦ rw e (omega (arith, ok.shrinks _ _ x))
    | inr (inr (x, l, e)) ↦ rw e (omega (arith, ok.shrinks _ _ x))
  ]

  -- A text of the type `type` that decodes to `z`, with and without compression, does so after it.
  pack-decode :
      (s : Settings) (jsonassoc : Bool) (b : Bytes) (type format : ℕ) (z : Option Zval)
      → IsSupported s
      → type < 16
      → length b < 2 ^ 31
      → decode_bytes codec jsonassoc b (type + cffmt format) ≡ z
      → ((f : ℕ) → 0 < f → payload codec jsonassoc f type false b ≡ z)
      → basic_decoder_v1 codec jsonassoc
          (pack codec s (b, type + cffmt format)).0
          (pack codec s (b, type + cffmt format)).1
        ≡ z
  pack-decode s jsonassoc b type format z ok t h plainly inside =
      decoder-decode_bytes jsonassoc _ _ (pack-short s b type format ok h)
      ∙ elim (pack-type codec s b type format _ refl) [
        | inl e ↦ rw e plainly
        | inr (inl (c, k, x, e)) ↦
            rw e (decode-zlib jsonassoc b c type format t h k ∙ inside _ (omega arith))
        | inr (inr (k, (m, l), e)) ↦ rw e (
            decode-fastlz jsonassoc b type format t h (omega (arith, ok.threshold m, l))
            ∙ inside _ (omega arith))
      ]

  pack_flags-lt :
      (s : Settings) (b : Bytes) (type format : ℕ)
      → type < 16
      → format < 2 ^ 8
      → (pack codec s (b, type + cffmt format)).1 < 2 ^ 32
  pack_flags-lt s b type format t h = elim (pack-type codec s b type format _ refl) [
    | inl e ↦ rw e (omega arith)
    | inr (inl (c, k, x, e)) ↦ rw e (omega arith)
    | inr (inr (k, m, e)) ↦ rw e (omega arith)
  ]

  string-payload :
      (jsonassoc : Bool) (b : Bytes) (f : ℕ)
      → 0 < f
      → payload codec jsonassoc f val_string false b ≡ some (string b)
  unfolding payload
  string-payload jsonassoc b f p = let e : (f == 0) ≡ false = ground arith in rw e refl

  -- A string is encoded with flags of 32 bits and decoded to itself, whatever the settings are, if it
  -- has less than 2 ^ 31 bytes and the settings are supported.
  pub decode-encode_string :
      (s : Settings) (jsonassoc : Bool) (b : Bytes)
      → IsSupported s
      → length b < 2 ^ 31
      → (e : Bytes × ℕ) × (encode codec s (string b) ≡ some e)
        × (e.1 < 2 ^ 32)
        × (length e.0 < 2 ^ 31)
        × (basic_decoder_v1 codec jsonassoc e.0 e.1 ≡ some (string b))
  unfolding encode plain packed
  decode-encode_string s jsonassoc b ok h = (
    pack codec s (b, val_string + cffmt string_format),
    refl,
    pack_flags-lt s b val_string string_format (omega arith) (omega arith),
    pack-short s b val_string string_format ok h,
    pack-decode s jsonassoc b val_string string_format (some (string b)) ok (omega arith) h
        (unfold decode_bytes in refl) (string-payload jsonassoc b),
  )
