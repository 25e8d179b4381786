-- ===== src/OpCookie/Destroy.antt =====
-- opcookie.c: opcookie_destroy frees every result once.
use php_couchbase.Base.{
  ℕ, zero, suc, ◌≡◌, refl, ap, List, [], ◌∷◌, ◌++◌, append_assoc, some, arith, ◌<◌, length,
  length-append, get_elem?,
}
use php_couchbase.OpCookie.{Res, OpCookie, free_from, destroy}
use php_couchbase.OpCookie.Chain.{Chain, first_address, IsLinked, get_elem?-append}

-- The addresses of `n` results from `k` on.
abbrev addresses : ℕ → ℕ → List ℕ
addresses k zero = []
addresses k (suc n) = k ∷ addresses (suc k) n

module _ {ℓ} {A : Type ℓ} where
  free_from-all :
      (fuel : ℕ) (nodes pre rs : List (Res A))
      → nodes ≡ pre ++ rs
      → Chain (length pre) rs
      → length rs < fuel
      → free_from fuel nodes (first_address (length pre) rs) ≡ addresses (length pre) (length rs)
  unfolding free_from
  free_from-all zero nodes pre rs e c h = absurd (omega arith)
  free_from-all (suc fuel) nodes pre [] e c h = refl
  free_from-all (suc zero) nodes pre (r ∷ rs) e c h = absurd (omega arith)
  free_from-all (suc (suc fuel)) nodes pre (r ∷ []) e c h =
      let here : get_elem? nodes (length pre) ≡ some r = rw e (get_elem?-append pre [] r) in
      rw (here, free_from) (rw (c, free_from) refl)
  free_from-all (suc fuel) nodes pre (r ∷ s ∷ rs) e c h =
      let here : get_elem? nodes (length pre) ≡ some r = rw e (get_elem?-append pre (s ∷ rs) r) in
      let size : length (pre ++ r ∷ []) ≡ suc (length pre) =
        omega (arith, length-append pre (r ∷ [])) in
      let tail =
        free_from-all fuel nodes (pre ++ r ∷ []) (s ∷ rs) (rw append_assoc e) (rw size c.1)
          (omega arith) in
      rw (here, free_from) (rw (c.0, free_from) (ap (◌∷◌ (length pre)) (rw size at tail)))

  -- opcookie_destroy frees every result exactly once, in the order of the list.
  pub destroy-addresses :
      (cookie : OpCookie A) → IsLinked cookie → destroy cookie ≡ addresses 0 (length cookie.nodes)
  unfolding destroy
  destroy-addresses cookie v = rw v.starts (
      free_from-all (suc (length cookie.nodes)) cookie.nodes [] cookie.nodes refl v.chain
        (omega arith))
