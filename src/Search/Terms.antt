-- ===== src/Search/Terms.antt =====
-- src/couchbase/search/doc_id_query.c and phrase_query.c, the queries that hold a list of texts. A
-- method gives the query that it leaves.
use php_couchbase.Base.{ℕ, Bool, List, [], Option, none, some, Bytes, codes}
use php_couchbase.Zval.{Zval, Entries, array, end}
use php_couchbase.Query.{add_assoc}
use php_couchbase.Search.{minus_one, add_texts, numbered, add_text, add_boost}

-- pcbc_doc_id_search_query_t
pub record DocIdQuery : Type 0 where
  pub boost : ℕ
  pub field : Option Bytes
  pub doc_ids : List Zval

-- pcbc_doc_id_search_query_init
unfoldable pub doc_id_init : List Zval → DocIdQuery
unfolding add_texts
doc_id_init args = record { boost = minus_one; field = none; doc_ids = add_texts args [] }

unfoldable pub doc_id_field : Bytes → DocIdQuery → DocIdQuery
doc_id_field text q = record q { field = some text }

unfoldable pub doc_id_boost : ℕ → DocIdQuery → DocIdQuery
doc_id_boost boost q = record q { boost = boost }

unfoldable pub doc_ids : List Zval → DocIdQuery → DocIdQuery
unfolding add_texts
doc_ids args q = record q { doc_ids = add_texts args q.doc_ids }

-- pcbc_phrase_search_query_t
pub record PhraseQuery : Type 0 where
  pub boost : ℕ
  pub field : Option Bytes
  pub terms : List Zval

-- pcbc_phrase_search_query_init
unfoldable pub terms_init : List Zval → PhraseQuery
unfolding add_texts
terms_init args = record { boost = minus_one; field = none; terms = add_texts args [] }

unfoldable pub terms_field : Bytes → PhraseQuery → PhraseQuery
terms_field text q = record q { field = some text }

unfoldable pub terms_boost : ℕ → PhraseQuery → PhraseQuery
terms_boost boost q = record q { boost = boost }

list_json : Bytes → (ℕ → Bool) → ℕ → Option Bytes → List Zval → Entries
unfolding add_assoc numbered
list_json name at_least_zero boost field l =
    add_boost at_least_zero boost
      (add_text (codes "field") field (add_assoc name (array (numbered 0 l)) end))

-- jsonSerialize
unfoldable pub doc_id_json : (ℕ → Bool) → DocIdQuery → Entries
unfolding list_json
doc_id_json at_least_zero q = list_json (codes "ids") at_least_zero q.boost q.field q.doc_ids

unfoldable pub terms_json : (ℕ → Bool) → PhraseQuery → Entries
unfolding list_json
terms_json at_least_zero q = list_json (codes "terms") at_least_zero q.boost q.field q.terms
