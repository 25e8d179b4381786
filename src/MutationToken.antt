-- ===== src/MutationToken.antt =====
-- src/couchbase/mutation_token.c: tokens of mutations, and their text form.
pub mod RoundTrip
use php_couchbase.Base.{ℕ, ◌%◌, ◌^◌, List, [], ◌∷◌, Bytes, ◌==◌, if◌then◌else◌}
use php_couchbase.Base36.{decode_str, encode_str}

-- lcb_MUTATION_TOKEN
pub record Mt : Type 0 where
  pub id : ℕ
  pub seq : ℕ
  pub vb : ℕ

-- pcbc_mutation_token, without the link to the next one.
pub record MutationToken : Type 0 where
  pub bucket : Bytes
  pub mt : Mt
  pub open mt use *

-- `estrdup` copies a text up to its first NUL.
unfoldable pub estrdup : Bytes → Bytes
estrdup [] = []
estrdup (c ∷ s) = let rest = estrdup s in if c == 0 then [] else c ∷ rest

-- pcbc_mutation_token_init
unfoldable pub init : Bytes → Mt → MutationToken
init bucket mt = record { bucket = estrdup bucket; mt = mt }

-- pcbc_mutation_token_init_php: `vbid` is the 64-bit pattern of a long.
unfoldable pub init_php : Bytes → ℕ → Bytes → Bytes → MutationToken
unfolding init
init_php bucket vbid vbuuid seqno =
    init bucket (record { id = decode_str vbuuid; seq = decode_str seqno; vb = vbid % 2 ^ 16 })

-- The methods `from`, `bucketName`, `vbucketId`, `vbucketUuid` and `sequenceNumber`, after the
-- engine has checked their arguments.
unfoldable pub from : Bytes → ℕ → Bytes → Bytes → MutationToken
unfolding init_php
from bucket vbid vbuuid seqno = init_php bucket vbid vbuuid seqno

unfoldable pub bucket_name : MutationToken → Bytes
bucket_name obj = obj.bucket

unfoldable pub vbucket_id : MutationToken → ℕ
vbucket_id obj = obj.vb

unfoldable pub vbucket_uuid : MutationToken → Bytes
vbucket_uuid obj = encode_str obj.id

unfoldable pub sequence_number : MutationToken → Bytes
sequence_number obj = encode_str obj.seq
