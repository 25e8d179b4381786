-- ===== src/Rows/Ended.antt =====
-- n1ql.c and view.c: what a query gives.
use php_couchbase.Base.{
  ℕ, ◌≡◌, refl, sym, ap, ◌∙◌, inl, inr, Bool, List, [], ◌∷◌, ◌++◌, Option, none, some, append_assoc,
  append-nil, map, ◌==◌, if◌then◌else◌, Bool-cases, Option-cases, ==_iff,
}
use php_couchbase.Zval.{Zval, Entries, end}
use php_couchbase.OpCookie
use php_couchbase.OpCookie.{OpCookie, results, get_first_error, lcb_success}
use php_couchbase.OpCookie.Chain.{first_failure}
use php_couchbase.OpCookie.Delivered.{deliver, results-deliver, get_first_error-deliver}
use php_couchbase.Rows.{
  RowEnv, Exc, Held, crash, holds, QueryResult, result, throw_held, with_meta, add_result, collect,
  ended, finish,
}
use php_couchbase.Rows.Views.{
  RespView, ViewRes, view_result, view_held, view_meta, view_row, view_request,
}

not_thrown :
    {P : Type 0} (err : ℕ) (exc : Option Exc) (q : QueryResult) → throw_held err exc ≡ result q → P
unfolding throw_held
not_thrown err none q e = cc
not_thrown err (some exc) q e = cc

-- The rows of the results that are not the last one, in order.
abbrev pub rows_in : {A : Type 0} → (A → Bool) → (A → Zval) → List (ℕ × A) → List Zval
rows_in is_final row_of [] = []
rows_in is_final row_of ((err, a) ∷ rs) =
    if is_final a then rows_in is_final row_of rs else row_of a ∷ rows_in is_final row_of rs

module _ {A : Type 0} (is_final : A → Bool) (row_of : A → Zval)
    (meta : A → Entries → Option Entries) where
  collect-none : (rs : List (ℕ × A)) → collect is_final row_of meta rs none ≡ none
  unfolding collect
  collect-none [] = refl
  collect-none (r ∷ rs) = refl

  rows-with_meta :
      (res q : QueryResult) (properties : Option Entries)
      → with_meta is_final row_of meta res properties ≡ some q
      → q.rows ≡ res.rows
  unfolding with_meta
  rows-with_meta res q none e = cc
  rows-with_meta res q (some properties) e = cc

  rows-add_result :
      (err : ℕ) (a : A) (res q : QueryResult)
      → add_result is_final row_of meta a res ≡ some q
      → q.rows ≡ res.rows ++ rows_in is_final row_of ((err, a) ∷ [])
  unfolding add_result
  rows-add_result err a res q e = elim (Bool-cases (is_final a)) [
    | inl f ↦
        rw f (rows-with_meta res q (meta a res.properties) (rw f at e) ∙ sym (append-nil res.rows))
    | inr f ↦ rw f (cc (rw f at e))
  ]

  rows_in-cons :
      (r : ℕ × A) (rs : List (ℕ × A))
      → rows_in is_final row_of (r ∷ []) ++ rows_in is_final row_of rs
        ≡ rows_in is_final row_of (r ∷ rs)
  rows_in-cons (err, a) rs = elim (Bool-cases (is_final a)) [
    | inl f ↦ rw f refl
    | inr f ↦ rw f refl
  ]

  rows-collect :
      (rs : List (ℕ × A)) (res q : QueryResult)
      → collect is_final row_of meta rs (some res) ≡ some q
      → q.rows ≡ res.rows ++ rows_in is_final row_of rs
  unfolding collect
  rows-collect [] res q e = cc (append-nil res.rows)
  rows-collect ((err, a) ∷ rs) res q e =
      elim (Option-cases (add_result is_final row_of meta a res)) [
        | inl n ↦ cc (collect-none rs)
        | inr (next, s) ↦
            rows-collect rs next q (rw (s, collect) at e)
            ∙ ap (λ (l : List Zval). l ++ rows_in is_final row_of rs)
                (rows-add_result err a res next s)
            ∙ append_assoc res.rows (rows_in is_final row_of ((err, a) ∷ []))
                (rows_in is_final row_of rs)
            ∙ ap (λ (l : List Zval). res.rows ++ l) (rows_in-cons (err, a) rs)
      ]

  result-ended :
      (o : Option QueryResult) (q : QueryResult)
      → ended is_final row_of meta o ≡ result q
      → o ≡ some q
  unfolding ended
  result-ended none q e = cc
  result-ended (some res) q e = cc

  rows-finish :
      (cookie : OpCookie A) (held : Held) (q : QueryResult)
      → finish is_final row_of meta cookie held ≡ result q
      → (get_first_error cookie ≡ lcb_success) × (q.rows ≡ rows_in is_final row_of (results cookie))
  unfolding finish
  rows-finish cookie crash q e = cc
  rows-finish cookie (holds exc) q e = elim (Bool-cases (get_first_error cookie == lcb_success)) [
    | inl t ↦ (
      (==_iff (get_first_error cookie) lcb_success).0 t,
      rows-collect (results cookie) (record { rows = []; properties = end }) q
          (result-ended
            (collect is_final row_of meta (results cookie)
              (some (record { rows = []; properties = end })))
            q (rw t at e)),
    )
    | inr f ↦ not_thrown (get_first_error cookie) exc q (rw f at e)
  ]

  rows-delivered :
      {R : Type 0} (res : R → ℕ × A) (resps : List R) (held : Held) (q : QueryResult)
      → finish is_final row_of meta (deliver res OpCookie.init resps) held ≡ result q
      → (first_failure (map res resps) ≡ lcb_success)
        × (q.rows ≡ rows_in is_final row_of (map res resps))
  rows-delivered res resps held q e =
      let ends = rows-finish (deliver res OpCookie.init resps) held q e in
      (cc (ends.0, get_first_error-deliver res resps), cc (ends.1, results-deliver res resps))

-- A query of a view gives an object only if no response failed, and its rows are objects of the
-- identifier, the key and the value of the responses that are not the last one, in the order in which
-- these came.
pub rows-view_request :
    (env : RowEnv) (json_response : Bool) (err : ℕ) (resps : List RespView) (q : QueryResult)
    → view_request env json_response err resps ≡ result q
    → (err ≡ lcb_success)
      × (first_failure (map (view_result env json_response) resps) ≡ lcb_success)
      × (q.rows
          ≡ rows_in
              (λ (r : ViewRes). r.is_final)
              (view_row env)
              (map (view_result env json_response) resps))
unfolding view_request
rows-view_request env json_response err resps q e = elim (Bool-cases (err == lcb_success)) [
  | inl t ↦
      let ends =
        rows-delivered (λ (r : ViewRes). r.is_final) (view_row env) (view_meta env)
          (view_result env json_response) resps (view_held env (holds none) resps) q (rw t at e) in
      ((==_iff err lcb_success).0 t, ends.0, ends.1)
  | inr f ↦ cc (rw f at e)
]
