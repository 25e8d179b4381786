-- ===== src/MutationState/Order.antt =====
-- mutation_state.c: two tokens of one bucket, in either order.
use php_couchbase.Base.{
  ◌<◌, ◌≡◌, ◌≢◌, refl, ap, subst, ◌∙◌, inl, inr, true, false, [], ◌∷◌, arith, bytes_eq,
  bytes_eq_refl, ◌==◌, ==_refl, ltb, if◌then◌else◌, Bool-cases, All,
}
use php_couchbase.MutationToken.{MutationToken, estrdup}
use php_couchbase.MutationToken.RoundTrip.{estrdup-eq}
use php_couchbase.MutationState.{
  MutationState, init, matches, is_older, is_held, scan, overwrite, store_token, add_token,
}

-- The token that the state holds after the first token of a list.
add_token-first :
    (a : MutationToken) → All (λ c. c ≢ 0) a.bucket → (add_token init a).tokens ≡ a ∷ []
unfolding add_token store_token scan init
add_token-first a z = rw (estrdup-eq a.bucket z) refl

add_token-second :
    (state : MutationState) (a b : MutationToken)
    → state.tokens ≡ a ∷ []
    → a.bucket ≡ b.bucket
    → a.seq ≢ b.seq
    → (add_token state b).tokens ≡ (
        if ltb a.seq b.seq
        then record a { mt = b.mt } ∷ []
        else a ∷ record { bucket = estrdup b.bucket; mt = b.mt } ∷ [])
unfolding add_token store_token scan is_held is_older matches overwrite
add_token-second state a b e same n =
    let eqb : bytes_eq a.bucket b.bucket ≡ true = rw same (bytes_eq_refl b.bucket) in
    let ne : (a.seq == b.seq) ≡ false = ground arith in
    elim (Bool-cases (ltb a.seq b.seq)) [
      | inl lt ↦ rw (e, eqb, ne, lt, ==_refl a.vb) refl
      | inr ge ↦ rw (e, eqb, ne, ge, ==_refl a.vb) refl
    ]

-- A token that is newer than the one before it in its bucket replaces it, whatever the two
-- vbuckets are.
pub newer-replaces :
    (a b : MutationToken)
    → All (λ c. c ≢ 0) a.bucket
    → a.bucket ≡ b.bucket
    → a.seq < b.seq
    → (add_token (add_token init a) b).tokens ≡ b ∷ []
newer-replaces a b z same lt =
    let newer : ltb a.seq b.seq ≡ true = ground arith in
    add_token-second (add_token init a) a b (add_token-first a z) same (λ e. omega (arith, e))
    ∙ rw newer (ap (λ k. record { bucket = k; mt = b.mt } ∷ []) same)

-- A token that is older than the one before it in its bucket is kept behind it.
pub older-kept :
    (a b : MutationToken)
    → All (λ c. c ≢ 0) a.bucket
    → a.bucket ≡ b.bucket
    → b.seq < a.seq
    → (add_token (add_token init a) b).tokens ≡ a ∷ b ∷ []
older-kept a b z same lt =
    let older : ltb a.seq b.seq ≡ false = ground arith in
    let zb : All (λ c. c ≢ 0) b.bucket = subst (λ k. All (λ c. c ≢ 0) k) same z in
    add_token-second (add_token init a) a b (add_token-first a z) same (λ e. omega (arith, e))
    ∙ rw (older, estrdup-eq b.bucket zb) refl
