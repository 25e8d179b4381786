-- ===== src/MutationToken/RoundTrip.antt =====
-- mutation_token.c: a token is rebuilt from what its accessors return.
use php_couchbase.Base.{◌^◌, ◌<◌, ◌≡◌, ◌≢◌, refl, [], ◌∷◌, Bytes, All, arith}
use php_couchbase.Base36.{u64_mod}
use php_couchbase.Base36.RoundTrip.{decode_str-encode_str}
use php_couchbase.MutationToken.{
  MutationToken, estrdup, from, bucket_name, vbucket_id, vbucket_uuid, sequence_number,
}

-- The ranges of the C types, and a bucket name that is a C string.
pub record IsValid (t : MutationToken) : Type 0 where
  pub id_fits : t.id < u64_mod
  pub seq_fits : t.seq < u64_mod
  pub vb_fits : t.vb < 2 ^ 16
  pub no_nul : All (λ c. c ≢ 0) t.bucket

pub estrdup-eq : (s : Bytes) → All (λ c. c ≢ 0) s → estrdup s ≡ s
unfolding estrdup
estrdup-eq [] h = refl
estrdup-eq (c ∷ s) h = ground (arith, estrdup-eq s h.1)

-- MutationToken::from, applied to what the four accessors of a valid token return, gives the token.
pub from-accessors :
    (t : MutationToken)
    → IsValid t
    → from (bucket_name t) (vbucket_id t) (vbucket_uuid t) (sequence_number t) ≡ t
unfolding from bucket_name vbucket_id vbucket_uuid sequence_number
from-accessors t v = ground (
  arith,
  estrdup-eq t.bucket v.no_nul,
  decode_str-encode_str t.id v.id_fits,
  decode_str-encode_str t.seq v.seq_fits,
)
