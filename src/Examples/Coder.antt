-- ===== src/Examples/Coder.antt =====
-- couchbase.c, with a codec that shortens one text.
use php_couchbase.Base.{
  ℕ, zero, suc, ◌+◌, ◌^◌, ◌≡◌, refl, true, false, [], ◌∷◌, bytes_eq, if◌then◌else◌, Option, none,
  some, Bytes, codes, leb,
}
use php_couchbase.Zval.{Zval, null, string, array, end}
use php_couchbase.Lcb.{Env}
use php_couchbase.BasicCoder.{Codec, Settings, sertype_php, sertype_json, cmprtype_zlib, encode}
use php_couchbase.BasicCoder.Functions.{Globals, default_encoder, default_decoder}
use php_couchbase.Examples.Operations.{sample}

abbrev repeated : Bytes
repeated = codes "aaaaaaaaaaaaaaaa"

-- One byte for that text, and one byte in front of any other.
abbrev squeeze : Bytes → Bytes
squeeze b = if bytes_eq b repeated then 1 ∷ [] else 0 ∷ b

abbrev restore : Bytes → Option Bytes
restore [] = none
restore (zero ∷ c) = some c
restore (suc n ∷ c) = some repeated

abbrev codec : Codec
codec = record {
  json_encode = λ z. some (codes "[]");
  json_decode = λ assoc b. some (array end);
  serialize = λ z. some (codes "a:0:{}");
  unserialize = λ b. some (array end);
  print_long = λ n. codes "7";
  print_double = λ d. codes "7.0";
  strtol = λ b. 7;
  strtod = λ b. 7;
  number_ends = λ b. false;
  compress = λ b. some (squeeze b);
  uncompress = λ c n. restore c;
  fastlz_compress = λ b. b;
  fastlz_decompress = λ b n. b;
}

-- Every text that does not get longer by it is compressed.
abbrev settings : ℕ → Settings
settings sertype = record {
  sertype = sertype;
  cmprtype = cmprtype_zlib;
  cmprthresh = 0;
  exceeds = λ n m. leb m n;
}

abbrev globals : Globals
globals = record { encoder = settings sertype_php; dec_json_array = true; log_level = codes "WARN" }

abbrev decoded_or_null : Option Zval → Zval
decoded_or_null none = null
decoded_or_null (some z) = z

abbrev default_env : Env
default_env = record sample {
  encoder = default_encoder codec globals;
  decoder = λ b flags datatype. decoded_or_null (default_decoder codec globals b flags datatype);
}

encoded_repeated :
    encode codec (settings sertype_json) (string repeated)
    ≡ some (16 ∷ 0 ∷ 0 ∷ 0 ∷ 1 ∷ [], 2 ^ 5 + 2 ^ 4 + 2 ^ 24)
unfolding encode bytes_eq
encoded_repeated = refl
