-- ===== src/Rows.antt =====
-- The rows of queries, src/couchbase/bucket: N1ql is n1ql.c, Views is view.c, Fts is cbft.c; this module
-- holds what they repeat, and Dispatch is Bucket::query. A row is decoded as JSON where the caller asks
-- for it. What php_array.h fetches of an array is a parameter, and fetching of a value that is no array
-- is undefined. A response is taken to carry one over HTTP, whose status and body are read.
pub mod N1ql
pub mod Views
pub mod Fts
pub mod Ended
pub mod Served
pub mod Dispatch
use php_couchbase.Base.{
  ℕ, Bool, List, [], ◌∷◌, ◌++◌, Option, none, some, Bytes, codes, ◌==◌, if◌then◌else◌,
}
use php_couchbase.Zval.{Zval, Entries, string, array, end}
use php_couchbase.Query.{add_assoc}
use php_couchbase.OpCookie.{OpCookie, results, get_first_error, lcb_success}

-- What the code calls of the engine, of php_array.h and of libcouchbase. The first argument of
-- `json_decode` asks for arrays in place of objects, besides the options of the caller.
pub record RowEnv : Type 0 where
  pub json_decode : Bool → Bytes → Option Zval
  pub fetch : Entries → Bytes → Option Zval
  pub fetch_long : Entries → Bytes → ℕ
  pub fetch_double : Entries → Bytes → ℕ
  pub fetch_string : Entries → Bytes → Option Bytes
  pub lcb_esockshutdown : ℕ
  pub lcb_network_error : ℕ

-- The exception that a callback prepares: its code, and what its text is printed from.
pub record Exc : Type 0 where
  pub code : ℕ
  pub status : Option ℕ
  pub texts : List Bytes

-- A value was taken for an array, or the exception that is held by now.
pub data Held : Type 0 where
  crash : Held
  holds : Option Exc → Held

-- The object that a query gives: its rows and its other properties.
pub record QueryResult : Type 0 where
  pub rows : List Zval
  pub properties : Entries

pub data QueryEnd : Type 0 where
  undefined : QueryEnd
  thrown_code : ℕ → QueryEnd
  thrown_exc : Exc → QueryEnd
  result : QueryResult → QueryEnd

-- A value that is decoded or, if it is no JSON, kept as a text.
unfoldable pub decoded_or_text : RowEnv → Bool → Bytes → Zval
decoded_or_text env as_array text = elim (env.json_decode as_array text) [
  | none ↦ string text
  | some z ↦ z
]

-- A property that is copied if it is there.
unfoldable pub copy_property : Bytes → Option Zval → Entries → Entries
unfolding add_assoc
copy_property name none es = es
copy_property name (some z) es = add_assoc name z es

-- The exception that an array of errors describes: N1QL and full text search. The first of the errors
-- is an array with a code and a message.
first_error : RowEnv → ℕ → Option Exc → Option Zval → Held
first_error env status old none = holds old
first_error env status old (some (array err)) = elim (env.fetch_string err (codes "msg")) [
  | none ↦ holds old
  | some msg ↦
      if env.fetch_long err (codes "code") == 0
      then holds old
      else holds (
          some (record {
            code = env.fetch_long err (codes "code");
            status = some status;
            texts = msg ∷ [];
          }))
]
first_error env status old (some z) = crash

errors_of : RowEnv → ℕ → Option Exc → Option Zval → Held
unfolding first_error
errors_of env status old none = holds old
errors_of env status old (some (array errors)) =
    first_error env status old (env.fetch errors (codes "0"))
errors_of env status old (some z) = crash

unfoldable pub exc_of_row : RowEnv → ℕ → Option Exc → Zval → Held
unfolding errors_of
exc_of_row env status old (array row) = errors_of env status old (env.fetch row (codes "errors"))
exc_of_row env status old z = holds old

-- The end of a request.
unfoldable pub throw_held : ℕ → Option Exc → QueryEnd
throw_held err none = thrown_code err
throw_held err (some exc) = thrown_exc exc

module _ {A : Type 0} (is_final : A → Bool) (row_of : A → Zval)
    (meta : A → Entries → Option Entries) where
  with_meta : QueryResult → Option Entries → Option QueryResult
  with_meta res none = none
  with_meta res (some properties) = some (record res { properties = properties })

  -- One result in the loop over them; `none` is undefined.
  add_result : A → QueryResult → Option QueryResult
  unfolding with_meta
  add_result a res =
      if is_final a
      then with_meta res (meta a res.properties)
      else some (record res { rows = res.rows ++ row_of a ∷ [] })

  unfoldable pub collect : List (ℕ × A) → Option QueryResult → Option QueryResult
  unfolding add_result
  collect rs none = none
  collect [] (some res) = some res
  collect ((err, a) ∷ rs) (some res) = collect rs (add_result a res)

  ended : Option QueryResult → QueryEnd
  ended none = undefined
  ended (some res) = result res

  -- The loop and what follows it: any error makes everything fail.
  unfoldable pub finish : OpCookie A → Held → QueryEnd
  unfolding collect ended throw_held
  finish cookie crash = undefined
  finish cookie (holds exc) =
      if get_first_error cookie == lcb_success
      then ended (collect (results cookie) (some (record { rows = []; properties = end })))
      else throw_held (get_first_error cookie) exc
