-- ===== src/BasicCoder.antt =====
-- couchbase.c: basic_encoder_v1 and basic_decoder_v1, the default transcoder, in a build with zlib and
-- without igbinary. The serializers of the engine, the compressors and the number parsers are the
-- record Codec. RoundTrip and Scalars hold the theorems.
pub mod Packing
pub mod RoundTrip
pub mod Scalars
pub mod Functions
pub mod Bucketwise
use php_couchbase.Base.{
  ℕ, zero, suc, ◌+◌, ◌-◌, ◌*◌, ◌/◌, ◌%◌, ◌^◌, Bool, true, false, List, [], ◌∷◌, ◌++◌, Option, none,
  some, Bytes, codes, length, ltb, leb, ◌==◌, ◌&&◌, ◌||◌, if◌then◌else◌,
}
use php_couchbase.Zval.{
  Zval, Entries, num, undef, null, bool, long, double, string, array, object, end, entry,
}

-- The functions that the two call. `none` is an error. `fastlz_decompress` gives no byte on failure,
-- and `number_ends` says whether strtol and strtod meet a character that ends the number.
pub record Codec : Type 0 where
  pub json_encode : Zval → Option Bytes
  pub json_decode : Bool → Bytes → Option Zval
  pub serialize : Zval → Option Bytes
  pub unserialize : Bytes → Option Zval
  pub print_long : ℕ → Bytes
  pub print_double : ℕ → Bytes
  pub strtol : Bytes → ℕ
  pub strtod : Bytes → ℕ
  pub number_ends : Bytes → Bool
  pub compress : Bytes → Option Bytes
  pub uncompress : Bytes → ℕ → Option Bytes
  pub fastlz_compress : Bytes → Bytes
  pub fastlz_decompress : Bytes → ℕ → Bytes

-- The parameters of the encoder. `exceeds n m` is the test of `n > m * cmprfactor`, on doubles;
-- `cmprthresh` is the 64-bit pattern of a long, which the comparison with a size takes as unsigned.
pub record Settings : Type 0 where
  pub sertype : ℕ
  pub cmprtype : ℕ
  pub cmprthresh : ℕ
  pub exceeds : ℕ → ℕ → Bool

-- COUCHBASE_SERTYPE_* and COUCHBASE_CMPRTYPE_*
abbrev pub sertype_json : ℕ
sertype_json = 0

abbrev pub sertype_igbinary : ℕ
sertype_igbinary = 1

abbrev pub sertype_php : ℕ
sertype_php = 2

abbrev pub cmprtype_none : ℕ
cmprtype_none = 0

abbrev pub cmprtype_zlib : ℕ
cmprtype_zlib = 1

abbrev pub cmprtype_fastlz : ℕ
cmprtype_fastlz = 2

-- COUCHBASE_VAL_*, COUCHBASE_COMPRESSION_* and COUCHBASE_CFFMT_*: bits 0 to 3, bit 4 and bits 5 to 7,
-- and bits 24 to 31.
abbrev pub val_string : ℕ
val_string = 0

abbrev pub val_long : ℕ
val_long = 1

abbrev pub val_double : ℕ
val_double = 2

abbrev pub val_bool : ℕ
val_bool = 3

abbrev pub val_serialized : ℕ
val_serialized = 4

abbrev pub val_igbinary : ℕ
val_igbinary = 5

abbrev pub val_json : ℕ
val_json = 6

abbrev pub is_compressed : ℕ
is_compressed = 2 ^ 4

abbrev pub compression_zlib : ℕ
compression_zlib = 2 ^ 5

abbrev pub compression_fastlz : ℕ
compression_fastlz = 2 ^ 6

abbrev pub cffmt : ℕ → ℕ
cffmt format = format * 2 ^ 24

abbrev pub private_format : ℕ
private_format = 1

abbrev pub json_format : ℕ
json_format = 2

abbrev pub raw_format : ℕ
raw_format = 3

abbrev pub string_format : ℕ
string_format = 4

-- `*(uint32_t *)output = input_size`, on a little-endian machine.
abbrev preamble : ℕ → Bytes → Bytes
preamble n rest = n % 2 ^ 8 ∷ n / 2 ^ 8 % 2 ^ 8 ∷ n / 2 ^ 16 % 2 ^ 8 ∷ n / 2 ^ 24 % 2 ^ 8 ∷ rest

-- `*(uint32_t *)bytes`, and the bytes behind. A shorter text is read past its end.
abbrev read_preamble : Bytes → Option (ℕ × Bytes)
read_preamble (a ∷ b ∷ c ∷ d ∷ rest) = some (a + b * 2 ^ 8 + c * 2 ^ 16 + d * 2 ^ 24, rest)
read_preamble _ = none

with_flags : ℕ → Option Bytes → Option (Bytes × ℕ)
with_flags flags none = none
with_flags flags (some b) = some (b, flags)

module _ (codec : Codec) where
  -- The `default` case of the switch on the type. Without igbinary that serializer is JSON.
  serialized : ℕ → Zval → Option (Bytes × ℕ)
  unfolding with_flags
  serialized sertype value =
      if sertype == sertype_json || sertype == sertype_igbinary
      then with_flags (val_json + cffmt json_format) (codec.json_encode value)
      else (if sertype == sertype_php
          then with_flags (val_serialized + cffmt private_format) (codec.serialize value)
          else none)

  -- The text of a value and its flags, before compression. `none`: `res` is no string, and the code
  -- that follows reads its length all the same, which is undefined behaviour.
  plain : ℕ → Zval → Option (Bytes × ℕ)
  unfolding serialized
  plain sertype (string b) = some (b, val_string + cffmt string_format)
  plain sertype (long n) = some (codec.print_long n, val_long + cffmt json_format)
  plain sertype (double d) = some (codec.print_double d, val_double + cffmt json_format)
  plain sertype (bool true) = some (codes "true", val_bool + cffmt json_format)
  plain sertype (bool false) = some (codes "false", val_bool + cffmt json_format)
  plain sertype undef = serialized sertype undef
  plain sertype null = serialized sertype null
  plain sertype (array es) = serialized sertype (array es)
  plain sertype (object n) = serialized sertype (object n)

  with_preamble : ℕ → ℕ → Option Bytes → Option (Bytes × ℕ)
  with_preamble size flags none = none
  with_preamble size flags (some c) = some (preamble size c, flags)

  -- The compressed text with its preamble, and `cmprflags`. `none`: the block is left by `break`.
  compressed_of : ℕ → Bytes → Option (Bytes × ℕ)
  unfolding with_preamble
  compressed_of cmprtype b =
      if cmprtype == cmprtype_zlib
      then with_preamble (length b) compression_zlib (codec.compress b)
      else (if cmprtype == cmprtype_fastlz
          then some (preamble (length b) (codec.fastlz_compress b), compression_fastlz)
          else none)

  -- The choice between the text and its compressed form. Compression is a private format.
  choose : Settings → Bytes → ℕ → Option (Bytes × ℕ) → Bytes × ℕ
  choose s b flags none = (b, flags)
  choose s b flags (some (c, cmprflags)) =
      if s.exceeds (length b) (length c)
      then (c, (flags + cmprflags + is_compressed) % 2 ^ 24 + cffmt private_format)
      else (b, flags)

  -- The `do` block of the compression.
  pub pack : Settings → Bytes × ℕ → Bytes × ℕ
  unfolding choose compressed_of
  pack s (b, flags) =
      let cmprtype = if ltb (length b) s.cmprthresh then cmprtype_none else s.cmprtype in
      if cmprtype == cmprtype_none then (b, flags) else choose s b flags (compressed_of cmprtype b)

  packed : Settings → Option (Bytes × ℕ) → Option (Bytes × ℕ)
  unfolding pack
  packed s none = none
  packed s (some p) = some (pack s p)

  -- The text and the flags that basic_encoder_v1 returns.
  unfoldable pub encode : Settings → Zval → Option (Bytes × ℕ)
  unfolding plain packed
  encode s value = packed s (plain s.sertype value)

  -- The array of basic_encoder_v1.
  triple : Option (Bytes × ℕ) → Option Zval
  triple none = none
  triple (some (b, flags)) =
      some
        (array (entry (num 0) (string b) (entry (num 1) (long flags) (entry (num 2) (long 0) end))))

  -- basic_encoder_v1. `none` is undefined behaviour.
  unfoldable pub basic_encoder_v1 : Settings → Zval → Option Zval
  unfolding triple encode
  basic_encoder_v1 s value = triple (encode s value)

  unfoldable pub or_null : Option Zval → Zval
  or_null none = null
  or_null (some z) = z

  -- DECODE_JSON
  pub decode_json : Bool → Bytes → Zval
  unfolding or_null
  decode_json jsonassoc b = or_null (codec.json_decode jsonassoc b)

  json_or_string : Bytes → Option Zval → Zval
  json_or_string b none = string b
  json_or_string b (some z) = z

  -- The switch on the serialization type. A number is parsed up to a character that ends it; a text
  -- that was decompressed has no terminator behind it.
  pub payload : Bool → ℕ → ℕ → Bool → Bytes → Option Zval
  unfolding decode_json or_null json_or_string
  payload jsonassoc flags sertype terminated b =
      if sertype == val_string
      then some (if flags == 0 then json_or_string b (codec.json_decode jsonassoc b) else string b)
      else (if sertype == val_long
          then (if terminated || codec.number_ends b then some (long (codec.strtol b)) else none)
          else (if sertype == val_double
              then (if terminated || codec.number_ends b
                  then some (double (codec.strtod b))
                  else none)
              else (if sertype == val_bool
                  then some (bool (ltb 0 (length b)))
                  else (if sertype == val_json
                      then some (decode_json jsonassoc b)
                      else (if sertype == val_serialized
                          then some (or_null (codec.unserialize b))
                          else some null)))))

  -- The payload of what a decompressor gives, if its length fits `bytes_len`. A failure leaves the
  -- switch with `res` undefined.
  unpacked : Bool → ℕ → ℕ → Option Bytes → Option Zval
  unfolding payload
  unpacked jsonassoc flags sertype none = some undef
  unpacked jsonassoc flags sertype (some b) =
      if ltb (length b) (2 ^ 31) then payload jsonassoc flags sertype false b else none

  fastlz_result : Bytes → Option Bytes
  fastlz_result [] = none
  fastlz_result (c ∷ b) = some (c ∷ b)

  uncompressed : Bool → ℕ → ℕ → ℕ → Option (ℕ × Bytes) → Option Zval
  unfolding unpacked fastlz_result
  uncompressed jsonassoc flags sertype cmprtype none = none
  uncompressed jsonassoc flags sertype cmprtype (some (size, rest)) =
      unpacked jsonassoc flags sertype (
        if cmprtype == compression_zlib
        then codec.uncompress rest size
        else fastlz_result (codec.fastlz_decompress rest size))

  -- The case of a private or an empty format.
  private_value : Bool → ℕ → Bytes → Option Zval
  unfolding uncompressed payload
  private_value jsonassoc flags b =
      let sertype = flags % 2 ^ 4 in
      let cmprtype = flags / 2 ^ 5 % 2 ^ 3 * 2 ^ 5 in
      if flags / 2 ^ 4 % 2 == 0
      then payload jsonassoc flags sertype true b
      else (if cmprtype == compression_zlib || cmprtype == compression_fastlz
          then uncompressed jsonassoc flags sertype cmprtype (read_preamble b)
          else (if cmprtype == 0 then payload jsonassoc flags sertype true b else some null))

  -- The switch of basic_decoder_v1 on the common flags.
  unfoldable pub decode_bytes : Bool → Bytes → ℕ → Option Zval
  unfolding private_value decode_json
  decode_bytes jsonassoc b flags =
      let format = flags / 2 ^ 24 % 2 ^ 8 in
      if format == private_format || format == 0
      then private_value jsonassoc flags b
      else (if format == json_format
          then some (decode_json jsonassoc b)
          else (if format == string_format || format == raw_format
              then some (string b)
              else some null))

  -- basic_decoder_v1. `none` is undefined behaviour, or a length that the int `bytes_len` cannot hold.
  unfoldable pub basic_decoder_v1 : Bool → Bytes → ℕ → Option Zval
  unfolding decode_bytes
  basic_decoder_v1 jsonassoc b flags =
      if ltb (length b) (2 ^ 31) then decode_bytes jsonassoc b flags else none
