-- ===== src/Query.antt =====
-- The queries of views and of N1QL: the options that their objects collect. View is
-- src/couchbase/view_query.c, Spatial is src/couchbase/spatial_view_query.c, and this module holds the
-- text that both repeat; N1ql is src/couchbase/n1ql_query.c.
pub mod View
pub mod Spatial
pub mod Options
pub mod N1ql
use php_couchbase.Base.{
  ℕ, Bool, true, false, List, [], ◌∷◌, Option, none, some, Bytes, codes, bytes_eq, ◌==◌,
  if◌then◌else◌,
}
use php_couchbase.MutationToken.{estrdup}
use php_couchbase.Zval.{Zval, Entries, Key, str, num, undef, string, end, entry}

-- What the engine does: JSON, the query string of an array, and php_implode with a comma.
pub record QueryEnv : Type 0 where
  pub json_encode : Zval → Option Bytes
  pub url_encode : Entries → Option Bytes
  pub implode : Entries → Bytes

-- add_assoc_zval_ex and its like, for a key that is no decimal number.
unfoldable pub add_assoc : Bytes → Zval → Entries → Entries
add_assoc key z end = entry (str key) z end
add_assoc key z (entry (str k) v es) =
    let rest = add_assoc key z es in
    if bytes_eq k key then entry (str k) z es else entry (str k) v rest
add_assoc key z (entry (num i) v es) = entry (num i) v (add_assoc key z es)

-- An option that is the JSON text of a value; a value that cannot be encoded is left out.
unfoldable pub add_json : Bytes → Option Bytes → Entries → Entries
unfolding add_assoc
add_json key none options = options
add_json key (some text) options = add_assoc key (string text) options

-- UPDATE_BEFORE, UPDATE_NONE and UPDATE_AFTER; `none` is an exception.
unfoldable pub stale_of : ℕ → Option Bytes
stale_of consistency =
    if consistency == 2
    then some (codes "ok")
    else (if consistency == 1
        then some (codes "false")
        else (if consistency == 3 then some (codes "update_after") else none))

-- The loop of `custom`.
unfoldable pub add_custom : Entries → Entries → Entries
unfolding add_assoc
add_custom end options = options
add_custom (entry k undef es) options = add_custom es options
add_custom (entry (str k) z es) options = add_custom es (add_assoc k z options)
add_custom (entry (num i) z es) options = add_custom es options

optstr : Option Bytes → Entries → Entries
unfolding add_assoc
optstr none result = result
optstr (some []) result = result
optstr (some (c ∷ s)) result = add_assoc (codes "optstr") (string (c ∷ s)) result

-- The start of `encode`.
unfoldable pub encoded_query : QueryEnv → Bytes → Bytes → Entries → Entries
unfolding optstr estrdup
encoded_query env design_document view_name options = optstr (env.url_encode options) (
    entry (str (codes "ddoc")) (string (estrdup design_document))
      (entry (str (codes "view")) (string (estrdup view_name)) end))
