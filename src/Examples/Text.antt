-- ===== src/Examples/Text.antt =====
-- base36.c, mutation_token.c, opcookie.c.
use php_couchbase.Base.{ℕ, ◌-◌, ◌<◌, ◌≤◌, ◌≡◌, refl, [], ◌∷◌, codes, length, arith}
use php_couchbase.Base36.{decode_str, encode_str, u64_mod}
use php_couchbase.Base36.RoundTrip.{decode_str-encode_str}
use php_couchbase.Base36.Bounds.{encode_str_fits, IsDigits}
use php_couchbase.MutationToken.{
  MutationToken, from, bucket_name, vbucket_id, vbucket_uuid, sequence_number,
}
use php_couchbase.MutationToken.RoundTrip.{from-accessors}
use php_couchbase.OpCookie.{OpCookie, init, push, results, destroy}
use php_couchbase.OpCookie.Chain.{IsLinked, init-IsLinked}
use php_couchbase.OpCookie.Linked.{push-IsLinked, results-push}
use php_couchbase.OpCookie.Destroy.{destroy-addresses}

encodes_largest : encode_str (u64_mod - 1) ≡ codes "3w5e11264sgsf"
unfolding encode_str
encodes_largest = refl

decodes_mixed : decode_str (codes "1-Z z") ≡ 2591
unfolding decode_str
decodes_mixed = refl

decode_str-encode_str_example : decode_str (encode_str 1234567890123) ≡ 1234567890123
decode_str-encode_str_example = decode_str-encode_str 1234567890123 (omega arith)

encode_str_fits_example :
    (0 < length (encode_str 0)) × (length (encode_str 0) ≤ 13) × IsDigits (encode_str 0)
encode_str_fits_example = encode_str_fits 0

abbrev travel_token : MutationToken
travel_token = record {
  bucket = codes "travel";
  mt = record { id = 123456789; seq = 42; vb = 1023 };
}

from-accessors_example :
    from
      (bucket_name travel_token)
      (vbucket_id travel_token)
      (vbucket_uuid travel_token)
      (sequence_number travel_token)
    ≡ travel_token
from-accessors_example = from-accessors travel_token (record {
  id_fits = omega arith;
  seq_fits = omega arith;
  vb_fits = omega arith;
  no_nul = omega arith;
})

abbrev two_results : OpCookie ℕ
two_results = push (push init 0 7) 13 8

two_results-IsLinked : IsLinked two_results
two_results-IsLinked = push-IsLinked (push init 0 7) 13 8 (push-IsLinked init 0 7 init-IsLinked)

results_test : results two_results ≡ (0, 7) ∷ (13, 8) ∷ []
unfolding results push init
results_test = refl

results-push_example : results (push two_results 5 9) ≡ (0, 7) ∷ (13, 8) ∷ (5, 9) ∷ []
unfolding results push init
results-push_example = results-push two_results 5 9 two_results-IsLinked

destroy-addresses_example : destroy two_results ≡ 0 ∷ 1 ∷ []
unfolding push init
destroy-addresses_example = destroy-addresses two_results two_results-IsLinked
