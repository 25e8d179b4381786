-- ===== src/OpCookie/Linked.antt =====
-- opcookie.c: the linked list holds the pushed results, in the order of the pushes.
use php_couchbase.Base.{
  ◌-◌, ℕ, suc, ◌+◌, ◌≡◌, refl, ap, sym, ◌∙◌, List, [], ◌∷◌, ◌++◌, Option, none, some, arith, ◌<◌,
  length, length-append,
}
use php_couchbase.OpCookie.{
  Res, OpCookie, init, push, link, new_res, or_else, next_res, foreach, results, get_first_error,
}
use php_couchbase.OpCookie.Chain.{
  out, Chain, first_address, last_address, first_failure, IsLinked, out-append, out-set_next,
  Chain-push, length-out-set_next, first_failure-append, results-nodes,
}

module _ {ℓ} {A : Type ℓ} where
  out-link :
      (head tail : Option ℕ) (nodes : List (Res A)) (n : ℕ)
      → out (link head tail nodes n) ≡ out nodes
  unfolding link
  out-link none tail nodes n = refl
  out-link (some h) none nodes n = refl
  out-link (some h) (some t) nodes n = out-set_next nodes t (some n)

  length-link :
      (head tail : Option ℕ) (nodes : List (Res A)) (n : ℕ)
      → length (link head tail nodes n) ≡ length nodes
  unfolding link
  length-link none tail nodes n = refl
  length-link (some h) none nodes n = refl
  length-link (some h) (some t) nodes n = length-out-set_next nodes t (some n)

  link-Chain :
      (nodes : List (Res A)) (err : ℕ) (a : A)
      → Chain 0 nodes
      → Chain 0 (
          link (first_address 0 nodes) (last_address 0 nodes) nodes (length nodes)
          ++ new_res err a ∷ [])
  unfolding link
  link-Chain [] err a c = refl
  link-Chain (r ∷ rs) err a c =
      let e : 0 + length rs ≡ length rs = omega arith in
      rw e (Chain-push 0 (suc (length rs)) r rs err a (omega arith) c)

  first_address-pos : (k : ℕ) (xs : List (Res A)) → 0 < length xs → first_address k xs ≡ some k
  first_address-pos k [] h = elim h [ ]
  first_address-pos k (x ∷ xs) h = refl

  last_address-pos :
      (k : ℕ) (xs : List (Res A)) → 0 < length xs → last_address k xs ≡ some (k + (length xs - 1))
  last_address-pos k [] h = elim h [ ]
  last_address-pos k (x ∷ xs) h = ground arith

  or_else-first : (nodes : List (Res A)) → or_else (first_address 0 nodes) (length nodes) ≡ some 0
  or_else-first [] = refl
  or_else-first (r ∷ rs) = refl

  out-push :
      (cookie : OpCookie A) (err : ℕ) (a : A)
      → out (push cookie err a).nodes ≡ out cookie.nodes ++ (err, a) ∷ []
  unfolding push
  out-push cookie err a =
      out-append (link cookie.res_head cookie.res_tail cookie.nodes (length cookie.nodes)) err a
      ∙ ap (λ (l : List (ℕ × A)). l ++ (err, a) ∷ [])
          (out-link cookie.res_head cookie.res_tail cookie.nodes (length cookie.nodes))

  length-push :
      (cookie : OpCookie A) (err : ℕ) (a : A)
      → length (push cookie err a).nodes ≡ suc (length cookie.nodes)
  unfolding push
  length-push cookie err a = omega (
    arith,
    length-append (link cookie.res_head cookie.res_tail cookie.nodes (length cookie.nodes))
        (new_res err a ∷ []),
    length-link cookie.res_head cookie.res_tail cookie.nodes (length cookie.nodes),
  )

  tail_lem :
      (cookie : OpCookie A) (err : ℕ) (a : A)
      → (push cookie err a).res_tail ≡ last_address 0 (push cookie err a).nodes
  tail_lem cookie err a =
      let n = length-push cookie err a in
      rw (last_address-pos 0 (push cookie err a).nodes (omega arith))
        (unfold push in ap some (omega arith))

  head_lem :
      (cookie : OpCookie A) (err : ℕ) (a : A)
      → cookie.res_head ≡ first_address 0 cookie.nodes
      → (push cookie err a).res_head ≡ some 0
  unfolding push
  head_lem cookie err a e = ap (λ h. or_else h (length cookie.nodes)) e ∙ or_else-first cookie.nodes

  -- opcookie_push keeps the list well linked.
  pub push-IsLinked :
      (cookie : OpCookie A) (err : ℕ) (a : A) → IsLinked cookie → IsLinked (push cookie err a)
  push-IsLinked cookie err a v = record {
    chain = unfold push in rw (v.starts, v.ends) (link-Chain cookie.nodes err a v.chain);
    starts =
        head_lem cookie err a v.starts
        ∙ sym (
            first_address-pos 0 (push cookie err a).nodes
              (omega (arith, length-push cookie err a)));
    ends = tail_lem cookie err a;
    failed =
        rw (out-push cookie err a, first_failure-append (out cookie.nodes) err a)
          (unfold push in rw v.failed (ground arith));
  }

  -- What the loops see after a push: the new result comes last.
  pub results-push :
      (cookie : OpCookie A) (err : ℕ) (a : A)
      → IsLinked cookie
      → results (push cookie err a) ≡ results cookie ++ (err, a) ∷ []
  results-push cookie err a v =
      results-nodes (push cookie err a) (push-IsLinked cookie err a v)
      ∙ out-push cookie err a
      ∙ ap (λ (l : List (ℕ × A)). l ++ (err, a) ∷ []) (sym (results-nodes cookie v))

  pub results-init : results (init {A = A}) ≡ []
  unfolding results init foreach next_res
  results-init = refl

  -- The error that the cookie reports is the first one among the results.
  pub get_first_error-results :
      (cookie : OpCookie A)
      → IsLinked cookie
      → get_first_error cookie ≡ first_failure (results cookie)
  unfolding get_first_error
  get_first_error-results cookie v = v.failed ∙ ap first_failure (sym (results-nodes cookie v))
