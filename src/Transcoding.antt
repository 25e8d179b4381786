-- ===== src/Transcoding.antt =====
-- transcoding.c: the calls of the user's transcoder functions.
use php_couchbase.Base.{ℕ, ◌%◌, ◌^◌, Option, none, some, Bytes, length, ◌==◌, if◌then◌else◌}
use php_couchbase.Zval.{Zval, string, long, array, count}
use php_couchbase.Lcb.{Env}

-- What pcbc_encode_value stores through its pointers.
pub record Encoded : Type 0 where
  pub bytes : Bytes
  pub flags : ℕ
  pub datatype : ℕ

-- The three values, if they are a string and two longs, narrowed to their C types.
encoded_of : Option Zval → Option Zval → Option Zval → Option Encoded
encoded_of (some (string b)) (some (long f)) (some (long d)) =
    some (record { bytes = b; flags = f % 2 ^ 32; datatype = d % 2 ^ 8 })
encoded_of _ _ _ = none

module _ (env : Env) where
  encoded_array : Option Zval → Option Encoded
  unfolding encoded_of
  encoded_array (some (array es)) =
      if count es == 3
      then encoded_of (env.fetchn es 0) (env.fetchn es 1) (env.fetchn es 2)
      else none
  encoded_array _ = none

  -- pcbc_encode_value: `none` is FAILURE.
  unfoldable pub encode_value : Zval → Option Encoded
  unfolding encoded_array
  encode_value value = encoded_array (env.encoder value)

  -- pcbc_decode_value, which takes the length as an int.
  unfoldable pub decode_value : Bytes → ℕ → ℕ → Zval
  decode_value bytes flags datatype =
      env.decoder (env.stringl bytes (length bytes % 2 ^ 32)) flags datatype
