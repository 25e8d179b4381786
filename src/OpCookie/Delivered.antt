-- ===== src/OpCookie/Delivered.antt =====
-- opcookie.c: the cookie after the callbacks of a request have pushed one result for each response.
use php_couchbase.Base.{ℕ, ◌≡◌, ap, ◌∙◌, sym, List, [], ◌∷◌, ◌++◌, map, append_assoc, append-nil}
use php_couchbase.OpCookie.{OpCookie, init, push, results, get_first_error}
use php_couchbase.OpCookie.Chain.{IsLinked, init-IsLinked, first_failure}
use php_couchbase.OpCookie.Linked.{
  push-IsLinked, results-push, results-init, get_first_error-results,
}

module _ {ℓ κ} {A : Type ℓ} {R : Type κ} where
  -- A response `r` leaves the code and the payload `res r`.
  unfoldable pub deliver : (R → ℕ × A) → OpCookie A → List R → OpCookie A
  deliver res cookie [] = cookie
  deliver res cookie (r ∷ rs) = deliver res (push cookie (res r).0 (res r).1) rs

  deliver-IsLinked :
      (res : R → ℕ × A) (cookie : OpCookie A) (rs : List R)
      → IsLinked cookie
      → IsLinked (deliver res cookie rs)
  unfolding deliver
  deliver-IsLinked res cookie [] v = v
  deliver-IsLinked res cookie (r ∷ rs) v =
      deliver-IsLinked res (push cookie (res r).0 (res r).1) rs
        (push-IsLinked cookie (res r).0 (res r).1 v)

  results-from :
      (res : R → ℕ × A) (cookie : OpCookie A) (rs : List R)
      → IsLinked cookie
      → results (deliver res cookie rs) ≡ results cookie ++ map res rs
  unfolding deliver
  results-from res cookie [] v = sym (append-nil (results cookie))
  results-from res cookie (r ∷ rs) v =
      results-from res (push cookie (res r).0 (res r).1) rs
        (push-IsLinked cookie (res r).0 (res r).1 v)
      ∙ ap (λ (l : List (ℕ × A)). l ++ map res rs) (results-push cookie (res r).0 (res r).1 v)
      ∙ append_assoc (results cookie) (res r ∷ []) (map res rs)

  pub results-deliver : (res : R → ℕ × A) (rs : List R) → results (deliver res init rs) ≡ map res rs
  results-deliver res rs =
      results-from res init rs init-IsLinked
      ∙ ap (λ (l : List (ℕ × A)). l ++ map res rs) results-init

  pub get_first_error-deliver :
      (res : R → ℕ × A) (rs : List R)
      → get_first_error (deliver res init rs) ≡ first_failure (map res rs)
  get_first_error-deliver res rs =
      get_first_error-results (deliver res init rs) (deliver-IsLinked res init rs init-IsLinked)
      ∙ ap first_failure (results-deliver res rs)
