-- ===== src/Rows/Fts.antt =====
-- src/couchbase/bucket/cbft.c: full text search.
use php_couchbase.Base.{ℕ, Bool, List, [], ◌∷◌, Option, none, some, codes, ◌==◌, if◌then◌else◌}
use php_couchbase.Zval.{Entries, array, long, double, end}
use php_couchbase.Query.{add_assoc}
use php_couchbase.OpCookie
use php_couchbase.OpCookie.{lcb_success}
use php_couchbase.OpCookie.Delivered.{deliver}
use php_couchbase.Rows.{
  RowEnv, Exc, Held, crash, holds, QueryEnd, thrown_code, copy_property, exc_of_row, finish,
}
use php_couchbase.Rows.N1ql.{RespN1ql, RowRes, row_value}

module _ (env : RowEnv) where
  -- ftsrow_callback: what it pushes; lcb_RESPFTS has the fields of RespN1ql.
  unfoldable pub fts_result : Bool → RespN1ql → ℕ × RowRes
  unfolding row_value
  fts_result json_response resp = (
    resp.rc,
    record { is_final = resp.is_final; row = row_value env json_response resp.is_final resp.row },
  )

  -- And the exception that it leaves in the cookie.
  fts_exc : Bool → Option Exc → RespN1ql → Held
  unfolding row_value exc_of_row
  fts_exc json_response old resp =
      if resp.rc == lcb_success
      then holds old
      else exc_of_row env resp.status old (row_value env json_response resp.is_final resp.row)

  unfoldable pub fts_held : Bool → Held → List RespN1ql → Held
  unfolding fts_exc
  fts_held json_response crash resps = crash
  fts_held json_response (holds old) [] = holds old
  fts_held json_response (holds old) (resp ∷ resps) =
      fts_held json_response (fts_exc json_response old resp) resps

  metrics_of : Entries → Entries
  unfolding add_assoc
  metrics_of row = add_assoc (codes "took") (long (env.fetch_long row (codes "took"))) (
      add_assoc (codes "max_score") (double (env.fetch_double row (codes "max_score")))
        (add_assoc (codes "total_hits") (long (env.fetch_long row (codes "total_hits"))) end))

  -- The properties that proc_ftsrow_results takes from the last row.
  unfoldable pub fts_meta : RowRes → Entries → Option Entries
  unfolding copy_property metrics_of
  fts_meta res properties = elim res.row [
    | array row ↦ some (
        add_assoc (codes "metrics") (array (metrics_of row)) (
          copy_property (codes "facets") (env.fetch row (codes "facets"))
            (copy_property (codes "status") (env.fetch row (codes "status")) properties)))
    | _ ↦ none
  ]

  -- pcbc_bucket_cbft_request, of a query with these responses.
  unfoldable pub cbft_request : Bool → ℕ → List RespN1ql → QueryEnd
  unfolding fts_result fts_held fts_meta finish
  cbft_request json_response err resps =
      if err == lcb_success
      then finish (λ (r : RowRes). r.is_final) (λ (r : RowRes). r.row) fts_meta
          (deliver (fts_result json_response) OpCookie.init resps)
          (fts_held json_response (holds none) resps)
      else thrown_code err
