-- ===== src/Rows/Views.antt =====
-- src/couchbase/bucket/view.c: views.
use php_couchbase.Base.{
  ℕ, Bool, true, false, List, [], ◌∷◌, Option, none, some, Bytes, codes, ◌==◌, if◌then◌else◌,
}
use php_couchbase.Zval.{Zval, Entries, str, null, string, array, end, entry}
use php_couchbase.OpCookie
use php_couchbase.OpCookie.{lcb_success}
use php_couchbase.OpCookie.Delivered.{deliver}
use php_couchbase.Rows.{
  RowEnv, Exc, Held, crash, holds, QueryEnd, thrown_code, decoded_or_text, copy_property, finish,
}

-- lcb_RESPVIEWQUERY; `error_body` is the body of the response over HTTP.
pub record RespView : Type 0 where
  pub rc : ℕ
  pub is_final : Bool
  pub doc_id : Bytes
  pub key : Bytes
  pub value : Bytes
  pub error_body : Bytes

-- opcookie_viewrow_res
pub record ViewRes : Type 0 where
  pub is_final : Bool
  pub id : Zval
  pub key : Zval
  pub value : Zval

module _ (env : RowEnv) where
  -- A text that is there, decoded.
  decoded : Bool → Bytes → Zval
  unfolding decoded_or_text
  decoded is_final [] = null
  decoded is_final (c ∷ s) = decoded_or_text env is_final (c ∷ s)

  decoded_key : Bool → Bytes → Zval
  unfolding decoded
  decoded_key true key = null
  decoded_key false key = decoded false key

  found_res : Bool → RespView → ViewRes
  unfolding decoded decoded_key
  found_res true resp = record {
    is_final = resp.is_final;
    id = string resp.doc_id;
    key = decoded_key resp.is_final resp.key;
    value = decoded resp.is_final resp.value;
  }
  found_res false resp = record {
    is_final = resp.is_final;
    id = string resp.doc_id;
    key = string resp.key;
    value = string resp.value;
  }

  -- viewrow_callback: what it pushes.
  unfoldable pub view_result : Bool → RespView → ℕ × ViewRes
  unfolding found_res
  view_result json_response resp = (
    resp.rc,
    if resp.rc == lcb_success
        then found_res json_response resp
        else record { is_final = resp.is_final; id = null; key = null; value = null },
  )

  -- And the exception that it leaves in the cookie, from the error and the reason of the body.
  error_and_reason : ℕ → Option Exc → Option Bytes → Option Bytes → Held
  error_and_reason rc old (some error) (some reason) =
      holds (some (record { code = rc; status = none; texts = error ∷ reason ∷ [] }))
  error_and_reason rc old none reason = holds old
  error_and_reason rc old (some error) none = holds old

  exc_of_body : ℕ → Option Exc → Option Zval → Held
  unfolding error_and_reason
  exc_of_body rc old none = holds old
  exc_of_body rc old (some (array body)) =
      error_and_reason rc old (env.fetch_string body (codes "error"))
        (env.fetch_string body (codes "reason"))
  exc_of_body rc old (some z) = crash

  exc_if_body : ℕ → Option Exc → Bytes → Held
  unfolding exc_of_body
  exc_if_body rc old [] = holds old
  exc_if_body rc old (c ∷ s) = exc_of_body rc old (env.json_decode true (c ∷ s))

  view_exc : Option Exc → RespView → Held
  unfolding exc_if_body
  view_exc old resp =
      if resp.rc == lcb_success then holds old else exc_if_body resp.rc old resp.error_body

  unfoldable pub view_held : Held → List RespView → Held
  unfolding view_exc
  view_held crash resps = crash
  view_held (holds old) [] = holds old
  view_held (holds old) (resp ∷ resps) = view_held (view_exc old resp) resps

  -- The property that proc_viewrow_results takes from the last row, if that is an array.
  unfoldable pub view_meta : ViewRes → Entries → Option Entries
  unfolding copy_property
  view_meta res properties = elim res.value [
    | array row ↦
        some (copy_property (codes "total_rows") (env.fetch row (codes "total_rows")) properties)
    | _ ↦ some properties
  ]

  -- The object of a row, as the array of its properties.
  unfoldable pub view_row : ViewRes → Zval
  view_row res = array (
      entry (str (codes "id")) res.id
        (entry (str (codes "key")) res.key (entry (str (codes "value")) res.value end)))

  -- pcbc_bucket_view_request, of a query with these responses.
  unfoldable pub view_request : Bool → ℕ → List RespView → QueryEnd
  unfolding view_result view_held view_meta view_row finish
  view_request json_response err resps =
      if err == lcb_success
      then finish (λ (r : ViewRes). r.is_final) view_row view_meta
          (deliver (view_result json_response) OpCookie.init resps) (view_held (holds none) resps)
      else thrown_code err
