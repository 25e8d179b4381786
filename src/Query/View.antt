-- ===== src/Query/View.antt =====
-- src/couchbase/view_query.c. A method gives the query that it leaves; those that can throw give
-- `false` with it when they do.
pub mod Calls
pub mod Encode
use php_couchbase.Base.{ℕ, Bool, true, false, Option, none, some, Bytes, codes, ◌==◌, if◌then◌else◌}
use php_couchbase.Zval.{Zval, Entries, str, string, array, long, end, entry}
use php_couchbase.Query.{QueryEnv, add_assoc, add_json, stale_of, add_custom, encoded_query}

-- pcbc_view_query_t
pub record ViewQuery : Type 0 where
  pub design_document : Bytes
  pub view_name : Bytes
  pub keys : Option Bytes
  pub include_docs : Bool
  pub options : Entries

-- pcbc_view_query_init, which is also ViewQuery::from; the allocation clears `include_docs`.
unfoldable pub init : Bytes → Bytes → ViewQuery
init design_document view_name = record {
  design_document = design_document;
  view_name = view_name;
  keys = none;
  include_docs = false;
  options = end;
}

unfoldable pub add_option : Bytes → Zval → ViewQuery → ViewQuery
add_option name z q = record q { options = add_assoc name z q.options }

abbrev pub bool_text : Bool → Zval
bool_text true = string (codes "true")
bool_text false = string (codes "false")

-- The methods.
unfoldable pub limit : ℕ → ViewQuery → ViewQuery
unfolding add_option
limit n q = add_option (codes "limit") (long n) q

unfoldable pub skip : ℕ → ViewQuery → ViewQuery
unfolding add_option
skip n q = add_option (codes "skip") (long n) q

add_or_throw : Bytes → Option Bytes → ViewQuery → ViewQuery × Bool
unfolding add_option
add_or_throw name none q = (q, false)
add_or_throw name (some text) q = (add_option name (string text) q, true)

unfoldable pub consistency : ℕ → ViewQuery → ViewQuery × Bool
unfolding add_or_throw
consistency n q = add_or_throw (codes "stale") (stale_of n) q

-- ORDER_ASCENDING and ORDER_DESCENDING
unfoldable pub descending_of : ℕ → Option Bytes
descending_of n =
    if n == 1 then some (codes "false") else (if n == 2 then some (codes "true") else none)

unfoldable pub order : ℕ → ViewQuery → ViewQuery × Bool
unfolding add_or_throw
order n q = add_or_throw (codes "descending") (descending_of n) q

unfoldable pub include_documents : Bool → ViewQuery → ViewQuery
include_documents b q = record q { include_docs = b }

unfoldable pub reduce : Bool → ViewQuery → ViewQuery
unfolding add_option
reduce b q = add_option (codes "reduce") (bool_text b) q

unfoldable pub group : Bool → ViewQuery → ViewQuery
unfolding add_option
group b q = add_option (codes "group") (bool_text b) q

unfoldable pub group_level : ℕ → ViewQuery → ViewQuery
unfolding add_option
group_level n q = add_option (codes "group_level") (long n) q

unfoldable pub id_range : Bytes → Bytes → ViewQuery → ViewQuery
unfolding add_option
id_range first last q =
    add_option (codes "endkey_docid") (string last)
      (add_option (codes "startkey_docid") (string first) q)

unfoldable pub custom : Entries → ViewQuery → ViewQuery
custom es q = record q { options = add_custom es q.options }

module _ (env : QueryEnv) where
  add_encoded : Bytes → Zval → ViewQuery → ViewQuery
  add_encoded name z q = record q { options = add_json name (env.json_encode z) q.options }

  unfoldable pub key : Zval → ViewQuery → ViewQuery
  unfolding add_encoded
  key z q = add_encoded (codes "key") z q

  or_keys : Option Bytes → Option Bytes → Option Bytes
  or_keys none old = old
  or_keys (some text) old = some text

  -- `keys` goes into the body of the request.
  unfoldable pub set_keys : Zval → ViewQuery → ViewQuery
  unfolding or_keys
  set_keys z q = record q {
    keys = or_keys (env.json_encode (array (entry (str (codes "keys")) z end))) q.keys;
  }

  unfoldable pub range : Zval → Zval → Bool → ViewQuery → ViewQuery
  unfolding add_encoded add_option
  range first last inclusive_end q = add_encoded (codes "endkey") last (
      add_encoded (codes "startkey") first
        (add_option (codes "inclusive_end") (bool_text inclusive_end) q))

  postdata : Option Bytes → Entries → Entries
  postdata none result = result
  postdata (some text) result = add_assoc (codes "postdata") (string text) result

  unfoldable pub encode_view : ViewQuery → Entries
  unfolding postdata
  encode_view q = postdata q.keys (encoded_query env q.design_document q.view_name q.options)
