-- ===== src/Rows/Served.antt =====
-- n1ql.c: a query whose responses are all in order.
use php_couchbase.Base.{
  ◌≡◌, refl, ap, ◌∙◌, inl, inr, Bool, true, List, [], ◌∷◌, ◌++◌, none, some, map, All, ◌==◌, ◌&&◌,
  ◌||◌, not, Bool-cases, arith,
}
use php_couchbase.Zval.{Zval, Entries, is_array, array, end}
use php_couchbase.OpCookie.{lcb_success}
use php_couchbase.OpCookie.Chain.{first_failure}
use php_couchbase.OpCookie.Delivered.{results-deliver, get_first_error-deliver}
use php_couchbase.Rows.{
  RowEnv, Held, holds, QueryResult, result, with_meta, add_result, collect, ended, finish,
}
use php_couchbase.Rows.N1ql.{
  RespN1ql, RowRes, row_value, patched, n1ql_result, n1ql_exc, n1ql_held, n1ql_meta, n1ql_request,
}

module _ (env : RowEnv) (json_response is_cbas : Bool) where
  -- A response that did not fail and, if it is the last one, holds an array.
  abbrev pub in_order : RespN1ql → Bool
  in_order resp =
      (patched env is_cbas resp.rc == lcb_success)
      && (not resp.is_final || is_array (row_value env json_response resp.is_final resp.row))

  meta-array :
      (final : Bool) (row : Zval) (es : Entries)
      → is_array row ≡ true
      → (properties : Entries) × (n1ql_meta env (record { is_final = final; row = row }) es
          ≡ some properties)
  unfolding n1ql_meta
  meta-array final (array row) es a = (_, refl)
  meta-array final row es a = cc a

  array_if_final :
      (resp : RespN1ql)
      → in_order resp ≡ true
      → resp.is_final ≡ true
      → is_array (row_value env json_response resp.is_final resp.row) ≡ true
  array_if_final resp o f = ground arith

  add_result-final :
      (a : RowRes) (res : QueryResult)
      → a.is_final ≡ true
      → add_result (λ (r : RowRes). r.is_final) (λ (r : RowRes). r.row) (n1ql_meta env) a res
        ≡ with_meta
            (λ (r : RowRes). r.is_final)
            (λ (r : RowRes). r.row)
            (n1ql_meta env)
            res
            (n1ql_meta env a res.properties)
  unfolding add_result
  add_result-final a res f = rw f refl

  added :
      (resp : RespN1ql) (res : QueryResult)
      → in_order resp ≡ true
      → (next : QueryResult) × (add_result
            (λ (r : RowRes). r.is_final)
            (λ (r : RowRes). r.row)
            (n1ql_meta env)
            (n1ql_result env json_response is_cbas resp).1
            res
          ≡ some next)
  unfolding add_result with_meta n1ql_result
  added resp res o = elim (Bool-cases resp.is_final) [
    | inl f ↦
        let got =
          meta-array resp.is_final (row_value env json_response resp.is_final resp.row)
            res.properties (array_if_final resp o f) in
        (
          record res { properties = got.0 },
          add_result-final (n1ql_result env json_response is_cbas resp).1 res f
              ∙ ap
                  (with_meta (λ (r : RowRes). r.is_final) (λ (r : RowRes). r.row) (n1ql_meta env)
                    res)
                  got.1,
        )
    | inr f ↦ (
      record res { rows = res.rows ++ row_value env json_response resp.is_final resp.row ∷ [] },
      rw f refl,
    )
  ]

  collected :
      (resps : List RespN1ql) (res : QueryResult)
      → All (λ (r : RespN1ql). in_order r ≡ true) resps
      → (q : QueryResult) × (collect
            (λ (r : RowRes). r.is_final)
            (λ (r : RowRes). r.row)
            (n1ql_meta env)
            (map (n1ql_result env json_response is_cbas) resps)
            (some res)
          ≡ some q)
  unfolding collect
  collected [] res os = (res, refl)
  collected (resp ∷ resps) res (o, os) =
      let next = added resp res o in
      let rest = collected resps next.0 os in
      (
        rest.0,
        ap
              (collect (λ (r : RowRes). r.is_final) (λ (r : RowRes). r.row) (n1ql_meta env)
                (map (n1ql_result env json_response is_cbas) resps))
              next.1
            ∙ rest.1,
      )

  succeeded : (resp : RespN1ql) → in_order resp ≡ true → patched env is_cbas resp.rc ≡ lcb_success
  succeeded resp o = ground (arith, o)

  exc-none :
      (resp : RespN1ql)
      → in_order resp ≡ true
      → n1ql_exc env json_response is_cbas none resp ≡ holds none
  unfolding n1ql_exc
  exc-none resp o = rw (succeeded resp o) refl

  held-none :
      (resps : List RespN1ql)
      → All (λ (r : RespN1ql). in_order r ≡ true) resps
      → n1ql_held env json_response is_cbas (holds none) resps ≡ holds none
  unfolding n1ql_held
  held-none [] os = refl
  held-none (resp ∷ resps) (o, os) =
      ap (λ (h : Held). n1ql_held env json_response is_cbas h resps) (exc-none resp o)
      ∙ held-none resps os

  first_failure-none :
      (resps : List RespN1ql)
      → All (λ (r : RespN1ql). in_order r ≡ true) resps
      → first_failure (map (n1ql_result env json_response is_cbas) resps) ≡ lcb_success
  unfolding n1ql_result
  first_failure-none [] os = refl
  first_failure-none (resp ∷ resps) (o, os) = rw (succeeded resp o) (first_failure-none resps os)

  -- A query over N1QL that the library accepted, none of whose responses failed, gives an object if each
  -- last row is an array.
  pub n1ql_request-result :
      (resps : List RespN1ql)
      → All (λ (r : RespN1ql). in_order r ≡ true) resps
      → (q : QueryResult) × (n1ql_request env json_response is_cbas lcb_success resps ≡ result q)
  unfolding n1ql_request finish ended
  n1ql_request-result resps os =
      let got = collected resps (record { rows = []; properties = end }) os in
      (
        got.0,
        rw
            (
              held-none resps os,
              results-deliver (n1ql_result env json_response is_cbas) resps,
              get_first_error-deliver (n1ql_result env json_response is_cbas) resps,
              first_failure-none resps os,
              got.1,
            )
            refl,
      )
