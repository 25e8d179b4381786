-- ===== src/BasicCoder/Packing.antt =====
-- couchbase.c: what the compression makes of a text.
use php_couchbase.Base.{
  ℕ, suc, ◌+◌, ◌%◌, ◌^◌, ◌<◌, ◌≤◌, ◌≡◌, ◌⊎◌, refl, inl, inr, true, Option, none, some, arith, Bytes,
  length, ltb, ◌==◌, if◌then◌else◌, Bool-cases,
}
use php_couchbase.BasicCoder.{
  Codec, Settings, cmprtype_none, cmprtype_zlib, cmprtype_fastlz, is_compressed, compression_zlib,
  compression_fastlz, cffmt, private_format, preamble, with_preamble, compressed_of, choose, pack,
}

-- What the libraries document: each decompressor undoes its compressor, given the size of the text.
-- fastlz takes texts of 16 bytes or more, and their length as an int.
pub record IsLossless (codec : Codec) : Type 0 where
  pub zlib_back : (b c : Bytes) → codec.compress b ≡ some c → codec.uncompress c (length b) ≡ some b
  pub fastlz_back :
      (b : Bytes)
      → 16 ≤ length b
      → length b < 2 ^ 31
      → codec.fastlz_decompress (codec.fastlz_compress b) (length b) ≡ b

-- Settings with which no text is replaced by a longer one, as with a factor of at least 1, and that give
-- to fastlz no text of less than 16 bytes.
pub record IsSupported (s : Settings) : Type 0 where
  pub shrinks : (n m : ℕ) → s.exceeds n m ≡ true → m ≤ n
  pub threshold : s.cmprtype ≡ cmprtype_fastlz → 16 ≤ s.cmprthresh

-- The flags after compression, by the type of the value, its format and the method.
abbrev pub packed_flags : ℕ → ℕ → ℕ → ℕ
packed_flags type format method =
    (type + cffmt format + method + is_compressed) % 2 ^ 24 + cffmt private_format

module _ (codec : Codec) where
  -- What the compression makes of a text.
  abbrev pub Packing : Settings → Bytes → ℕ → ℕ → Type 0
  Packing s b type format =
      (pack codec s (b, type + cffmt format) ≡ (b, type + cffmt format))
      ⊎ (((c : Bytes) × (codec.compress b ≡ some c)
            × (s.exceeds (length b) (length (preamble (length b) c)) ≡ true)
            × (pack codec s (b, type + cffmt format)
                ≡ (preamble (length b) c, packed_flags type format compression_zlib)))
          ⊎ ((s.exceeds (length b) (length (preamble (length b) (codec.fastlz_compress b))) ≡ true)
              × ((s.cmprtype ≡ cmprtype_fastlz) × (s.cmprthresh ≤ length b))
              × (pack codec s (b, type + cffmt format) ≡ (
                preamble (length b) (codec.fastlz_compress b),
                packed_flags type format compression_fastlz,
              ))))

  choose-zlib :
      (s : Settings) (b : Bytes) (type format : ℕ) (r : Option Bytes)
      → codec.compress b ≡ r
      → (choose codec s b (type + cffmt format) (with_preamble codec (length b) compression_zlib r)
          ≡ (b, type + cffmt format))
        ⊎ ((c : Bytes) × (codec.compress b ≡ some c)
            × (s.exceeds (length b) (length (preamble (length b) c)) ≡ true)
            × (choose codec s b
                  (type + cffmt format)
                  (with_preamble codec (length b) compression_zlib r)
                ≡ (preamble (length b) c, packed_flags type format compression_zlib)))
  unfolding choose with_preamble
  choose-zlib s b type format none e = inl refl
  choose-zlib s b type format (some c) e =
      elim (Bool-cases (s.exceeds (length b) (suc (suc (suc (suc (length c))))))) [
        | inl h ↦ inr (c, e, h, rw h refl)
        | inr h ↦ inl (rw h refl)
      ]

  choose-fastlz :
      (s : Settings) (b : Bytes) (type format : ℕ)
      → let c = codec.fastlz_compress b in
        let r =
          choose codec s b
            (type + cffmt format)
            (some (preamble (length b) c, compression_fastlz)) in
        (r ≡ (b, type + cffmt format))
        ⊎ ((s.exceeds (length b) (length (preamble (length b) c)) ≡ true)
            × (r ≡ (preamble (length b) c, packed_flags type format compression_fastlz)))
  unfolding choose
  choose-fastlz s b type format =
      elim (Bool-cases
        (s.exceeds (length b) (length (preamble (length b) (codec.fastlz_compress b))))) [
          | inl h ↦ inr (h, rw h refl)
          | inr h ↦ inl (rw h refl)
        ]

  -- fastlz is chosen only if it was asked for, and on a text that reaches the threshold.
  fastlz-chosen :
      (s : Settings) (b : Bytes) (method : ℕ)
      → (if ltb (length b) s.cmprthresh then cmprtype_none else s.cmprtype) ≡ method
      → (method == cmprtype_fastlz) ≡ true
      → (s.cmprtype ≡ cmprtype_fastlz) × (s.cmprthresh ≤ length b)
  fastlz-chosen s b method e z = (ground arith, ground arith)

  pub pack-type :
      (s : Settings) (b : Bytes) (type format method : ℕ)
      → (if ltb (length b) s.cmprthresh then cmprtype_none else s.cmprtype) ≡ method
      → Packing s b type format
  unfolding pack compressed_of
  pack-type s b type format method e = elim (Bool-cases (method == cmprtype_none)) [
    | inl z ↦ inl (rw (e, z) refl)
    | inr nz ↦ elim (Bool-cases (method == cmprtype_zlib)) [
      | inl z ↦ elim (choose-zlib s b type format (codec.compress b) refl) [
        | inl same ↦ inl (rw (e, nz, z) same)
        | inr (c, k, x, q) ↦ inr (inl (c, k, x, rw (e, nz, z) q))
      ]
      | inr nz' ↦ elim (Bool-cases (method == cmprtype_fastlz)) [
        | inl z ↦ elim (choose-fastlz s b type format) [
          | inl same ↦ inl (rw (e, nz, nz', z) same)
          | inr (k, q) ↦ inr (inr (k, fastlz-chosen s b method e z, rw (e, nz, nz', z) q))
        ]
        | inr nz'' ↦ inl (rw (e, nz, nz', nz'') (unfold choose in refl))
      ]
    ]
  ]
