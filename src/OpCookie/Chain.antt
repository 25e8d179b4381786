-- ===== src/OpCookie/Chain.antt =====
-- opcookie.c: what a well-linked list of results is, and what the loop over it visits.
use php_couchbase.Base.{
  append-nil, ℕ, zero, suc, ◌+◌, ◌≡◌, refl, ap, List, [], ◌∷◌, ◌++◌, append_assoc, Option, none,
  some, arith, ◌<◌, length, length-append, get_elem?, ◌==◌, if◌then◌else◌,
}
use php_couchbase.OpCookie.{
  Res, OpCookie, lcb_success, init, set_next, new_res, next_res, foreach, results,
}

module _ {ℓ} {A : Type ℓ} where
  abbrev pub out : List (Res A) → List (ℕ × A)
  out [] = []
  out (r ∷ rs) = (r.err, r.payload) ∷ out rs

  -- The results from address `k` on are linked in the order of their addresses.
  abbrev pub Chain : ℕ → List (Res A) → Type 0
  Chain k [] = Unit
  Chain k (r ∷ []) = r.next ≡ none
  Chain k (r ∷ s ∷ rs) = (r.next ≡ some (suc k)) × Chain (suc k) (s ∷ rs)

  abbrev pub first_address : ℕ → List (Res A) → Option ℕ
  first_address k [] = none
  first_address k (r ∷ rs) = some k

  abbrev pub last_address : ℕ → List (Res A) → Option ℕ
  last_address k [] = none
  last_address k (r ∷ rs) = some (k + length rs)

  -- The first error among results, in order.
  abbrev pub first_failure : List (ℕ × A) → ℕ
  first_failure [] = lcb_success
  first_failure ((err, a) ∷ rs) = if err == lcb_success then first_failure rs else err

  -- The list is well linked, and `first_error` is the first error in it.
  pub record IsLinked (cookie : OpCookie A) : Type 0 where
    pub chain : Chain 0 cookie.nodes
    pub starts : cookie.res_head ≡ first_address 0 cookie.nodes
    pub ends : cookie.res_tail ≡ last_address 0 cookie.nodes
    pub failed : cookie.first_error ≡ first_failure (out cookie.nodes)

  pub init-IsLinked : IsLinked init
  unfolding init
  init-IsLinked = record { chain = tt; starts = refl; ends = refl; failed = refl }

  pub out-append :
      (rs : List (Res A)) (err : ℕ) (a : A)
      → out (rs ++ new_res err a ∷ []) ≡ out rs ++ (err, a) ∷ []
  out-append [] err a = refl
  out-append (r ∷ rs) err a = ap (◌∷◌ (r.err, r.payload)) (out-append rs err a)

  pub out-set_next : (rs : List (Res A)) (at : ℕ) (t : Option ℕ) → out (set_next rs at t) ≡ out rs
  unfolding set_next
  out-set_next [] at t = refl
  out-set_next (r ∷ rs) zero t = refl
  out-set_next (r ∷ rs) (suc at) t = ap (◌∷◌ (r.err, r.payload)) (out-set_next rs at t)

  pub Chain-push :
      (k n : ℕ) (r : Res A) (rs : List (Res A)) (err : ℕ) (a : A)
      → n ≡ k + suc (length rs)
      → Chain k (r ∷ rs)
      → Chain k (set_next (r ∷ rs) (length rs) (some n) ++ new_res err a ∷ [])
  unfolding set_next
  Chain-push k n r [] err a e c = (ground arith, refl)
  Chain-push k n r (s ∷ []) err a e c = (c.0, Chain-push (suc k) n s [] err a (omega arith) c.1)
  Chain-push k n r (s ∷ t ∷ rs) err a e c =
      (c.0, Chain-push (suc k) n s (t ∷ rs) err a (omega arith) c.1)

  pub get_elem?-append :
      (pre rs : List (Res A)) (r : Res A) → get_elem? (pre ++ r ∷ rs) (length pre) ≡ some r
  get_elem?-append [] rs r = refl
  get_elem?-append (p ∷ pre) rs r = get_elem?-append pre rs r

  pub length-out-set_next :
      (rs : List (Res A)) (at : ℕ) (t : Option ℕ) → length (set_next rs at t) ≡ length rs
  unfolding set_next
  length-out-set_next [] at t = refl
  length-out-set_next (r ∷ rs) zero t = refl
  length-out-set_next (r ∷ rs) (suc at) t = ap suc (length-out-set_next rs at t)

  pub first_failure-append :
      (rs : List (ℕ × A)) (err : ℕ) (a : A)
      → first_failure (rs ++ (err, a) ∷ [])
        ≡ (if first_failure rs == lcb_success then err else first_failure rs)
  first_failure-append [] err a = ground arith
  first_failure-append ((e, b) ∷ rs) err a = ground (arith, first_failure-append rs err a)

  -- The results that the loop still visits, from address `length pre` on.
  foreach_from :
      (fuel : ℕ) (cookie : OpCookie A) (cur : Option ℕ) (pre rs : List (Res A))
      → cookie.nodes ≡ pre ++ rs
      → next_res cookie cur ≡ first_address (length pre) rs
      → Chain (length pre) rs
      → length rs < fuel
      → foreach fuel cookie cur ≡ out rs
  unfolding foreach next_res
  foreach_from zero cookie cur pre rs e f c h = absurd (omega arith)
  foreach_from (suc fuel) cookie cur pre [] e f c h = rw (f, foreach)
  foreach_from (suc fuel) cookie cur pre (r ∷ []) e f c h =
      let here : get_elem? cookie.nodes (length pre) ≡ some r = rw e (get_elem?-append pre [] r) in
      let after : next_res cookie (some (length pre)) ≡ none = rw (here, next_res) c in
      rw (f, foreach)
        (rw (here, foreach)
          (ap (◌∷◌ (r.err, r.payload)) (
            foreach_from fuel cookie (some (length pre)) (pre ++ r ∷ []) [] (rw append-nil e) after
              tt (omega arith))))
  foreach_from (suc fuel) cookie cur pre (r ∷ s ∷ rs) e f c h =
      let here : get_elem? cookie.nodes (length pre) ≡ some r =
        rw e (get_elem?-append pre (s ∷ rs) r) in
      let size : length (pre ++ r ∷ []) ≡ suc (length pre) =
        omega (arith, length-append pre (r ∷ [])) in
      let after : next_res cookie (some (length pre)) ≡ some (suc (length pre)) =
        rw (here, next_res) c.0 in
      rw (f, foreach)
        (rw (here, foreach)
          (ap (◌∷◌ (r.err, r.payload)) (
            foreach_from fuel cookie (some (length pre)) (pre ++ r ∷ []) (s ∷ rs)
              (rw append_assoc e) (rw size after) (rw size c.1) (omega arith))))

  -- FOREACH_OPCOOKIE_RES visits every result, in the order of the pushes.
  pub results-nodes : (cookie : OpCookie A) → IsLinked cookie → results cookie ≡ out cookie.nodes
  unfolding results
  results-nodes cookie v =
      foreach_from (suc (length cookie.nodes)) cookie none [] cookie.nodes refl v.starts v.chain
        (omega arith)
