-- ===== src/BasicCoder/Bucketwise.antt =====
-- transcoding.c over couchbase.c: a bucket with the default transcoder.
use php_couchbase.Base.{ℕ, ◌^◌, ◌<◌, ◌≡◌, some, Bytes, length}
use php_couchbase.Zval.{Zval, Entries, num, long, string, end, entry}
use php_couchbase.Lcb.{Env}
use php_couchbase.BasicCoder.{Codec}
use php_couchbase.BasicCoder.Functions.{Globals, default_encoder, default_decoder}

abbrev pub encoded_triple : Bytes → ℕ → Entries
encoded_triple b flags =
    entry (num 0) (string b) (entry (num 1) (long flags) (entry (num 2) (long 0) end))

-- The bucket's transcoder functions are the default ones, a string of a length that is a positive int has
-- that many bytes, and php_array_fetchn finds the elements of a list of three.
pub record IsDefault (env : Env) (codec : Codec) (g : Globals) : Type 0 where
  pub encodes : (z : Zval) → env.encoder z ≡ default_encoder codec g z
  pub decodes :
      (b : Bytes) (flags datatype : ℕ) (z : Zval)
      → default_decoder codec g b flags datatype ≡ some z
      → env.decoder b flags datatype ≡ z
  pub whole : (b : Bytes) → length b < 2 ^ 31 → env.stringl b (length b) ≡ b
  pub first : (b : Bytes) (flags : ℕ) → env.fetchn (encoded_triple b flags) 0 ≡ some (string b)
  pub second : (b : Bytes) (flags : ℕ) → env.fetchn (encoded_triple b flags) 1 ≡ some (long flags)
  pub third : (b : Bytes) (flags : ℕ) → env.fetchn (encoded_triple b flags) 2 ≡ some (long 0)
