-- ===== src/MutationState/Tokens.antt =====
-- mutation_state.c: what pcbc_add_token leaves in the list of tokens.
use php_couchbase.Base.{
  ℕ, suc, ◌+◌, ◌%◌, ◌^◌, ◌≤◌, ◌≡◌, ◌≢◌, refl, ap, sym, ◌∙◌, subst, inl, inr, ◌⊎◌, Bool, true, false,
  List, [], ◌∷◌, ◌++◌, Option, none, some, arith, bytes_eq, bytes_eq_refl, ◌==◌, ◌&&◌, ==_refl,
  if◌then◌else◌, Bool-cases, All, length, length-append,
}
use php_couchbase.MutationToken.{Mt, MutationToken, estrdup}
use php_couchbase.MutationToken.RoundTrip.{estrdup-eq}
use php_couchbase.MutationState.{
  MutationState, matches, is_older, is_held, Search, present, place, scan, overwrite, store_token,
  add_token,
}

-- Some token of the list has the bucket, the sequence number and the id of `token`.
abbrev pub holds : List MutationToken → MutationToken → Bool
holds [] token = false
holds (t ∷ rest) token =
    if bytes_eq t.bucket token.bucket && (t.seq == token.seq && t.id == token.id)
    then true
    else holds rest token

-- The code's test is that of the three.
is_held-alike :
    (t token : MutationToken)
    → is_held t token ≡ (bytes_eq t.bucket token.bucket && (t.seq == token.seq && t.id == token.id))
unfolding is_held matches
is_held-alike t token = rw (==_refl t.vb) refl

-- A token that is held is found.
holds-held :
    (t : MutationToken) (rest : List MutationToken) (token : MutationToken)
    → is_held t token ≡ true
    → holds (t ∷ rest) token ≡ true
holds-held t rest token h = rw (sym (is_held-alike t token) ∙ h) refl

-- A token that is not held is passed over.
holds-other :
    (t : MutationToken) (rest : List MutationToken) (token : MutationToken)
    → is_held t token ≡ false
    → holds (t ∷ rest) token ≡ holds rest token
holds-other t rest token h = rw (sym (is_held-alike t token) ∙ h) refl

Search-cases : (r : Search) → (r ≡ present) ⊎ ((r ≡ place none) ⊎ ((i : ℕ) × (r ≡ place (some i))))
Search-cases present = inl refl
Search-cases (place none) = inr (inl refl)
Search-cases (place (some i)) = inr (inr (i, refl))

scan-present :
    (ts : List MutationToken) (at : ℕ) (new : Option ℕ) (token : MutationToken)
    → scan ts at new token ≡ present
    → holds ts token ≡ true
unfolding scan
scan-present [] at new token e = cc
scan-present (t ∷ ts) at new token e = elim (Bool-cases (is_held t token)) [
  | inl h ↦ holds-held t ts token h
  | inr h ↦ holds-other t ts token h ∙ scan-present ts (at + 1) _ token (rw h at e)
]

scan-held :
    (ts : List MutationToken) (at : ℕ) (new : Option ℕ) (token : MutationToken)
    → holds ts token ≡ true
    → scan ts at new token ≡ present
unfolding scan
scan-held [] at new token e = cc
scan-held (t ∷ ts) at new token e = elim (Bool-cases (is_held t token)) [
  | inl h ↦ rw h refl
  | inr h ↦ rw h (scan-held ts (at + 1) _ token (sym (holds-other t ts token h) ∙ e))
]

-- A token with the bucket of another, once it has its mutation, holds it.
is_held-new :
    (t token : MutationToken)
    → bytes_eq t.bucket token.bucket ≡ true
    → is_held (record t { mt = token.mt }) token ≡ true
unfolding is_held matches
is_held-new t token e = rw (e, ==_refl token.vb, ==_refl token.seq, ==_refl token.id) refl

is_older-bucket :
    (t token : MutationToken) → is_older t token ≡ true → bytes_eq t.bucket token.bucket ≡ true
unfolding is_older matches
is_older-bucket t token e = ground arith

-- The loop's choice of a place: it was chosen before, or the token there takes the mutation.
Placed : List MutationToken → ℕ → Option ℕ → MutationToken → ℕ → Type 0
Placed ts at new token i =
    (new ≡ some i) ⊎ ((at ≤ i) × (holds (overwrite ts at i token.mt) token ≡ true))

holds-here :
    (t : MutationToken) (ts : List MutationToken) (at : ℕ) (token : MutationToken)
    → is_older t token ≡ true
    → holds (overwrite (t ∷ ts) at at token.mt) token ≡ true
unfolding overwrite
holds-here t ts at token h = rw (==_refl at) (
    holds-held (record t { mt = token.mt }) ts token
      (is_held-new t token (is_older-bucket t token h)))

holds-later :
    (t : MutationToken) (ts : List MutationToken) (at i : ℕ) (token : MutationToken)
    → at + 1 ≤ i
    → is_held t token ≡ false
    → holds (overwrite ts (at + 1) i token.mt) token ≡ true
    → holds (overwrite (t ∷ ts) at i token.mt) token ≡ true
unfolding overwrite
holds-later t ts at i token b n h = elim (Bool-cases (at == i)) [
  | inl e ↦ absurd (ground arith)
  | inr e ↦ rw e (holds-other t (overwrite ts (at + 1) i token.mt) token n ∙ h)
]

place-later :
    (t : MutationToken) (ts : List MutationToken) (at : ℕ) (new : Option ℕ) (token : MutationToken)
    (i : ℕ)
    → is_held t token ≡ false
    → Placed ts (at + 1) (if is_older t token then some at else new) token i
    → Placed (t ∷ ts) at new token i
unfolding Placed
place-later t ts at new token i n (inr (b, h)) =
    inr (omega arith, holds-later t ts at i token b n h)
place-later t ts at new token i n (inl e) = elim (Bool-cases (is_older t token)) [
  | inl o ↦
      let same : some at ≡ some i = rw o at e in
      inr (
        ground arith,
        subst (λ j. holds (overwrite (t ∷ ts) at j token.mt) token ≡ true) (ground arith)
            (holds-here t ts at token o),
      )
  | inr o ↦ inl (rw o at e)
]

scan-Placed :
    (ts : List MutationToken) (at : ℕ) (new : Option ℕ) (token : MutationToken) (i : ℕ)
    → scan ts at new token ≡ place (some i)
    → Placed ts at new token i
unfolding scan
scan-Placed [] at new token i e = unfold Placed in inl (ground arith)
scan-Placed (t ∷ ts) at new token i e = elim (Bool-cases (is_held t token)) [
  | inl h ↦ absurd (cc (rw h at e))
  | inr h ↦
      place-later t ts at new token i h
        (scan-Placed ts (at + 1) (if is_older t token then some at else new) token i (rw h at e))
]

Placed-overwrite :
    (ts : List MutationToken) (at : ℕ) (token : MutationToken) (i : ℕ)
    → Placed ts at none token i
    → holds (overwrite ts at i token.mt) token ≡ true
unfolding Placed
Placed-overwrite ts at token i (inl e) = absurd (cc)
Placed-overwrite ts at token i (inr (b, h)) = h

holds-append :
    (ts : List MutationToken) (t token : MutationToken)
    → is_held t token ≡ true
    → holds (ts ++ t ∷ []) token ≡ true
holds-append [] t token h = holds-held t [] token h
holds-append (u ∷ ts) t token h = elim (Bool-cases (is_held u token)) [
  | inl e ↦ holds-held u (ts ++ t ∷ []) token e
  | inr e ↦ holds-other u (ts ++ t ∷ []) token e ∙ holds-append ts t token h
]

-- After pcbc_add_token of a token whose bucket is a C string, the state holds a token of that
-- bucket with its sequence number and id.
pub add_token-holds :
    (state : MutationState) (token : MutationToken)
    → All (λ c. c ≢ 0) token.bucket
    → holds (add_token state token).tokens token ≡ true
unfolding add_token store_token
add_token-holds state token z = elim (Search-cases (scan state.tokens 0 none token)) [
  | inl e ↦ rw e (scan-present state.tokens 0 none token e)
  | inr (inl e) ↦
      rw (e, estrdup-eq token.bucket z)
        (holds-append state.tokens token token
          (is_held-new token token (bytes_eq_refl token.bucket)))
  | inr (inr (i, e)) ↦
      rw e (Placed-overwrite state.tokens 0 token i (scan-Placed state.tokens 0 none token i e))
]

-- A token whose mutation the state holds already leaves the state as it is.
pub add_token-again :
    (state : MutationState) (token : MutationToken)
    → All (λ c. c ≢ 0) token.bucket
    → add_token (add_token state token) token ≡ add_token state token
add_token-again state token z =
    let held =
      scan-held (add_token state token).tokens 0 none token (add_token-holds state token z) in
    unfold add_token store_token in rw held refl

length-overwrite :
    (ts : List MutationToken) (at i : ℕ) (mt : Mt) → length (overwrite ts at i mt) ≡ length ts
unfolding overwrite
length-overwrite [] at i mt = refl
length-overwrite (t ∷ ts) at i mt = elim (Bool-cases (at == i)) [
  | inl e ↦ rw e refl
  | inr e ↦ rw e (ap suc (length-overwrite ts (at + 1) i mt))
]

-- `ntokens` is the number of tokens, as an int.
abbrev pub Counts : MutationState → Type 0
Counts state = state.ntokens ≡ length state.tokens % 2 ^ 32

-- pcbc_add_token keeps the count.
pub add_token-Counts :
    (state : MutationState) (token : MutationToken) → Counts state → Counts (add_token state token)
unfolding add_token store_token
add_token-Counts state token c = elim (Search-cases (scan state.tokens 0 none token)) [
  | inl e ↦ rw e c
  | inr (inl e) ↦ rw e (
      omega (
        arith,
        c,
        length-append state.tokens (record { bucket = estrdup token.bucket; mt = token.mt } ∷ []),
      ))
  | inr (inr (i, e)) ↦ rw (e, length-overwrite state.tokens 0 i token.mt) c
]
