-- ===== src/Document.antt =====
-- src/couchbase/document.c: the documents that operations return. A property that was not set is
-- `none`.
use php_couchbase.Base.{ℕ, Option, none, some, Bytes, length, ◌==◌, if◌then◌else◌}
use php_couchbase.Base36.{encode_str, decode_str}
use php_couchbase.Zval.{Zval, string, long}
use php_couchbase.MutationToken.{Mt, MutationToken}
use php_couchbase.MutationToken
use php_couchbase.Lcb.{Env}
use php_couchbase.Transcoding.{decode_value}

pub record Document : Type 0 where
  pub error : Option ℕ
  pub value : Option Zval
  pub flags : Option ℕ
  pub cas : Option Zval
  pub token : Option MutationToken

-- object_init_ex
abbrev blank : Document
blank = record { error = none; value = none; flags = none; cas = none; token = none }

-- pcbc_cas_encode and pcbc_cas_decode, of src/couchbase/base36.c.
unfoldable pub cas_encode : ℕ → Zval
cas_encode cas = string (encode_str cas)

unfoldable pub cas_decode : Zval → ℕ
cas_decode (string s) = decode_str s
cas_decode _ = 0

-- pcbc_document_init_error
unfoldable pub init_error : ℕ → Document
init_error err = record blank { error = some err }

module _ (env : Env) where
  -- The token's property, for a pointer that may be NULL.
  valid_token : Option Mt → Option MutationToken
  valid_token none = none
  valid_token (some mt) =
      if env.token_is_valid mt then some (MutationToken.init env.bucketname mt) else none

  -- pcbc_document_init_decode
  unfoldable pub init_decode : Bytes → ℕ → ℕ → ℕ → Option Mt → Document
  unfolding valid_token
  init_decode bytes flags datatype cas token = record blank {
    value = if length bytes == 0 then none else some (decode_value env bytes flags datatype);
    flags = some flags;
    cas = some (cas_encode cas);
    token = valid_token token;
  }

  -- pcbc_document_init_counter
  unfoldable pub init_counter : ℕ → ℕ → Option Mt → Document
  unfolding valid_token
  init_counter value cas token = record blank {
    value = some (long value);
    cas = some (cas_encode cas);
    token = valid_token token;
  }

  -- pcbc_document_init
  unfoldable pub init : Bytes → ℕ → ℕ → Option Mt → Document
  unfolding valid_token
  init bytes flags cas token = record blank {
    value = if length bytes == 0 then none else some (string bytes);
    flags = some flags;
    cas = some (cas_encode cas);
    token = valid_token token;
  }
