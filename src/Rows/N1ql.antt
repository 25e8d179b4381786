-- ===== src/Rows/N1ql.antt =====
-- src/couchbase/bucket/n1ql.c: N1QL and analytics queries.
use php_couchbase.Base.{
  ℕ, Bool, List, [], ◌∷◌, Option, none, some, Bytes, codes, ◌==◌, ◌&&◌, ◌||◌, if◌then◌else◌,
}
use php_couchbase.Zval.{Zval, Entries, string, array}
use php_couchbase.OpCookie
use php_couchbase.OpCookie.{lcb_success}
use php_couchbase.OpCookie.Delivered.{deliver}
use php_couchbase.Rows.{
  RowEnv, Exc, Held, crash, holds, QueryEnd, thrown_code, decoded_or_text, copy_property,
  exc_of_row, finish,
}

-- lcb_RESPN1QL; `status` is that of the response over HTTP.
pub record RespN1ql : Type 0 where
  pub rc : ℕ
  pub is_final : Bool
  pub row : Bytes
  pub status : ℕ

-- opcookie_n1qlrow_res, and that of cbft.c.
pub record RowRes : Type 0 where
  pub is_final : Bool
  pub row : Zval

module _ (env : RowEnv) where
  -- The row; the last one, of the metadata, is decoded into arrays.
  unfoldable pub row_value : Bool → Bool → Bytes → Zval
  unfolding decoded_or_text
  row_value json_response is_final text =
      if json_response then decoded_or_text env is_final text else string text

  -- The code, where the analytics service has closed its socket.
  unfoldable pub patched : Bool → ℕ → ℕ
  patched is_cbas rc =
      if is_cbas && (rc == env.lcb_esockshutdown || rc == env.lcb_network_error)
      then lcb_success
      else rc

  -- n1qlrow_callback: what it pushes.
  unfoldable pub n1ql_result : Bool → Bool → RespN1ql → ℕ × RowRes
  unfolding row_value patched
  n1ql_result json_response is_cbas resp = (
    patched is_cbas resp.rc,
    record { is_final = resp.is_final; row = row_value json_response resp.is_final resp.row },
  )

  -- And the exception that it leaves in the cookie.
  unfoldable pub n1ql_exc : Bool → Bool → Option Exc → RespN1ql → Held
  unfolding row_value patched exc_of_row
  n1ql_exc json_response is_cbas old resp =
      if patched is_cbas resp.rc == lcb_success
      then holds old
      else exc_of_row env resp.status old (row_value json_response resp.is_final resp.row)

  unfoldable pub n1ql_held : Bool → Bool → Held → List RespN1ql → Held
  unfolding n1ql_exc
  n1ql_held json_response is_cbas crash resps = crash
  n1ql_held json_response is_cbas (holds old) [] = holds old
  n1ql_held json_response is_cbas (holds old) (resp ∷ resps) =
      n1ql_held json_response is_cbas (n1ql_exc json_response is_cbas old resp) resps

  -- The properties that proc_n1qlrow_results takes from the last row.
  unfoldable pub n1ql_meta : RowRes → Entries → Option Entries
  unfolding copy_property
  n1ql_meta res properties = elim res.row [
    | array row ↦ some (
        copy_property (codes "metrics") (env.fetch row (codes "metrics")) (
          copy_property (codes "signature") (env.fetch row (codes "signature")) (
            copy_property (codes "status") (env.fetch row (codes "status"))
              (copy_property (codes "requestId") (env.fetch row (codes "requestID")) properties))))
    | _ ↦ none
  ]

  -- pcbc_bucket_n1ql_request, of a query with these responses.
  unfoldable pub n1ql_request : Bool → Bool → ℕ → List RespN1ql → QueryEnd
  unfolding n1ql_result n1ql_held n1ql_meta finish
  n1ql_request json_response is_cbas err resps =
      if err == lcb_success
      then finish (λ (r : RowRes). r.is_final) (λ (r : RowRes). r.row) n1ql_meta
          (deliver (n1ql_result json_response is_cbas) OpCookie.init resps)
          (n1ql_held json_response is_cbas (holds none) resps)
      else thrown_code err
