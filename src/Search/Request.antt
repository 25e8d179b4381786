-- ===== src/Search/Request.antt =====
-- src/couchbase/search_query.c: SearchQuery, the request around a query part. A method gives the
-- request that it leaves. The static methods that only make the objects of the other classes are
-- their init functions.
use php_couchbase.Base.{
  ℕ, ◌^◌, Bool, true, false, List, [], ◌∷◌, ◌++◌, Option, none, some, Bytes, codes, ◌==◌, ltb,
  if◌then◌else◌,
}
use php_couchbase.Zval.{Zval, Entries, defined, str, bool, string, array, long, end, entry}
use php_couchbase.MutationToken.{estrdup}
use php_couchbase.MutationState.{MutationState, export_for_search}
use php_couchbase.Query.{add_assoc}
use php_couchbase.Search.{add_texts, add_list, unset, to_int, add_string, add_int}

-- pcbc_search_query_t. An array that is built by appending is the list of its values, and `none` is
-- an undefined value.
pub record SearchQuery : Type 0 where
  pub index_name : Bytes
  pub query_part : Zval
  pub limit : ℕ
  pub skip : ℕ
  pub explain : Bool
  pub server_side_timeout : ℕ
  pub consistency : Option Zval
  pub fields : Option (List Zval)
  pub sort : Option (List Zval)
  pub facets : Option Entries
  pub highlight_style : Option Bytes
  pub highlight_fields : Option (List Zval)

-- SearchQuery::__construct
unfoldable pub construct : Bytes → Zval → SearchQuery
construct index_name query_part = record {
  index_name = index_name;
  query_part = query_part;
  limit = unset;
  skip = unset;
  explain = false;
  server_side_timeout = unset;
  consistency = none;
  fields = none;
  sort = none;
  facets = none;
  highlight_style = none;
  highlight_fields = none;
}

unfoldable pub search_limit : ℕ → SearchQuery → SearchQuery
search_limit n q = record q { limit = to_int n }

unfoldable pub search_skip : ℕ → SearchQuery → SearchQuery
search_skip n q = record q { skip = to_int n }

unfoldable pub search_explain : Bool → SearchQuery → SearchQuery
search_explain b q = record q { explain = b }

unfoldable pub search_timeout : ℕ → SearchQuery → SearchQuery
search_timeout n q = record q { server_side_timeout = to_int n }

vectors_of : List (Bytes × ℕ) → Entries
vectors_of [] = end
vectors_of ((key, n) ∷ rest) = entry (str key) (long n) (vectors_of rest)

-- The length that is given for the key of the index counts its terminator.
at_plus : Bytes → MutationState → Zval
unfolding vectors_of estrdup
at_plus index_name state = array (
    entry (str (codes "level")) (string (codes "at_plus")) (
      entry (str (codes "vectors"))
        (array (
          entry (str (estrdup index_name ++ 0 ∷ [])) (array (vectors_of (export_for_search state)))
            end))
        end))

-- `false` is the exception on a state without tokens.
unfoldable pub search_consistent_with : MutationState → SearchQuery → SearchQuery × Bool
unfolding at_plus
search_consistent_with state q =
    if state.ntokens == 0
    then (q, false)
    else (record q { consistency = some (at_plus q.index_name state) }, true)

facets_or_new : Option Entries → Entries
facets_or_new none = end
facets_or_new (some es) = es

unfoldable pub add_facet : Bytes → Zval → SearchQuery → SearchQuery
unfolding facets_or_new add_assoc
add_facet name facet q = record q { facets = some (add_assoc name facet (facets_or_new q.facets)) }

list_or_new : Option (List Zval) → List Zval
list_or_new none = []
list_or_new (some l) = l

unfoldable pub search_fields : List Zval → SearchQuery → SearchQuery
unfolding list_or_new add_texts
search_fields args q = record q { fields = some (add_texts args (list_or_new q.fields)) }

unfoldable pub search_sort : List Zval → SearchQuery → SearchQuery
unfolding list_or_new add_texts
search_sort args q = record q { sort = some (add_texts args (list_or_new q.sort)) }

-- A style that is given is never NULL, since the parameter is a string.
unfoldable pub highlight : Bytes → List Zval → SearchQuery → SearchQuery
unfolding add_texts
highlight style args q = record q {
  highlight_style = some style;
  highlight_fields = some (add_texts args []);
}

add_zval : Bytes → Option Zval → Entries → Entries
unfolding add_assoc
add_zval name none es = es
add_zval name (some z) es = add_assoc name z es

add_array : Bytes → Option Entries → Entries → Entries
unfolding add_assoc
add_array name none es = es
add_array name (some a) es = add_assoc name (array a) es

add_explain : Bool → Entries → Entries
unfolding add_assoc
add_explain explain es = if explain then add_assoc (codes "explain") (bool explain) es else es

-- The control object; it is written if either of its parts is there.
control_of : ℕ → Option Zval → Option Entries
unfolding add_int add_zval
control_of timeout (some z) =
    some (add_zval (codes "consistency") (some z) (add_int (codes "timeout") timeout end))
control_of timeout none =
    if ltb timeout (2 ^ 31) then some (add_int (codes "timeout") timeout end) else none

highlight_of : Option Bytes → Option (List Zval) → Option Entries
unfolding add_list add_string
highlight_of (some style) (some l) =
    some (add_list (codes "fields") (some l) (add_string (codes "style") style end))
highlight_of none l = none
highlight_of (some style) none = none

-- jsonSerialize
unfoldable pub search_json : SearchQuery → Entries
unfolding add_string add_explain add_zval add_list add_array control_of highlight_of
search_json q =
    let explained = add_explain q.explain (add_string (codes "indexName") q.index_name end) in
    let paged = add_int (codes "from") q.skip (add_int (codes "size") q.limit explained) in
    let controlled =
      add_array (codes "ctl") (control_of q.server_side_timeout q.consistency) paged in
    let listed = add_list (codes "sort") q.sort (add_list (codes "fields") q.fields controlled) in
    let faceted = add_array (codes "facets") q.facets listed in
    let lit =
      add_array (codes "highlight") (highlight_of q.highlight_style q.highlight_fields) faceted in
    add_zval (codes "query") (defined q.query_part) lit
