-- ===== src/Bucket/Results/Collect.antt =====
-- The responses of one operation, as the callbacks and the linked list hand them on.
use php_couchbase.Base.{
  ℕ, ◌≡◌, refl, ap, sym, ◌∙◌, List, [], ◌∷◌, ◌++◌, append-nil, append_assoc, arith, Bytes, length,
  ◌==◌, if◌then◌else◌,
}
use php_couchbase.OpCookie.{OpCookie, push, results, get_first_error, lcb_success}
use php_couchbase.OpCookie
use php_couchbase.OpCookie.Chain.{IsLinked, init-IsLinked, first_failure}
use php_couchbase.OpCookie.Linked.{
  push-IsLinked, results-push, results-init, get_first_error-results,
}
use php_couchbase.Lcb.{Response}
use php_couchbase.Bucket.Results.{KeyRes, Callback, deliver, hash_key}

-- The callback pushes the response's code, with the fields that `res_of` makes.
abbrev pub PushesOf {ℓ} : {A : Type ℓ} → (Response → KeyRes A) → Callback A → Type ℓ
PushesOf {A} res_of callback =
    (cookie : OpCookie (KeyRes A)) (rb : Response)
    → callback cookie rb ≡ push cookie rb.rc (res_of rb)

-- The results that stand for responses.
abbrev pub rows {ℓ} : {A : Type ℓ} → (Response → KeyRes A) → List Response → List (ℕ × KeyRes A)
rows res_of [] = []
rows res_of (rb ∷ rest) = (rb.rc, res_of rb) ∷ rows res_of rest

-- The code of the first response that failed.
abbrev pub first_rc : List Response → ℕ
first_rc [] = lcb_success
first_rc (rb ∷ rest) = if rb.rc == lcb_success then first_rc rest else rb.rc

pub hash_key_full : (key : Bytes) → hash_key (length key) key ≡ key
hash_key_full [] = refl
hash_key_full (c ∷ key) = ap (◌∷◌ c) (hash_key_full key)

module _ {ℓ} {A : Type ℓ} (res_of : Response → KeyRes A) (callback : Callback A)
    (pushes : PushesOf res_of callback) where
  deliver-IsLinked :
      (rs : List Response) (cookie : OpCookie (KeyRes A))
      → IsLinked cookie
      → IsLinked (deliver callback cookie rs)
  unfolding deliver
  deliver-IsLinked [] cookie v = v
  deliver-IsLinked (rb ∷ rs) cookie v =
      deliver-IsLinked rs (callback cookie rb)
        (rw (pushes cookie rb) (push-IsLinked cookie rb.rc (res_of rb) v))

  results-deliver_from :
      (rs : List Response) (cookie : OpCookie (KeyRes A))
      → IsLinked cookie
      → results (deliver callback cookie rs) ≡ results cookie ++ rows res_of rs
  unfolding deliver
  results-deliver_from [] cookie v = sym (append-nil (results cookie))
  results-deliver_from (rb ∷ rs) cookie v = rw (pushes cookie rb) (
      results-deliver_from rs _ (push-IsLinked cookie rb.rc (res_of rb) v)
      ∙ ap (λ (l : List (ℕ × KeyRes A)). l ++ rows res_of rs)
          (results-push cookie rb.rc (res_of rb) v)
      ∙ append_assoc (results cookie) _ (rows res_of rs))

  -- The results are those of the responses, in the order of arrival.
  pub results-deliver :
      (rs : List Response) → results (deliver callback OpCookie.init rs) ≡ rows res_of rs
  results-deliver rs =
      results-deliver_from rs OpCookie.init init-IsLinked
      ∙ ap (λ (l : List (ℕ × KeyRes A)). l ++ rows res_of rs) results-init

  first_failure-rows : (rs : List Response) → first_failure (rows res_of rs) ≡ first_rc rs
  first_failure-rows [] = refl
  first_failure-rows (rb ∷ rs) = ground (arith, first_failure-rows rs)

  -- The first error is that of the first response that failed.
  pub get_first_error-deliver :
      (rs : List Response) → get_first_error (deliver callback OpCookie.init rs) ≡ first_rc rs
  get_first_error-deliver rs =
      get_first_error-results _ (deliver-IsLinked rs OpCookie.init init-IsLinked)
      ∙ ap first_failure (results-deliver rs)
      ∙ first_failure-rows rs
