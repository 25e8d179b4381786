-- ===== src/Search/Text.antt =====
-- src/couchbase/search/query_string_query.c. A method gives the query that it leaves.
use php_couchbase.Base.{ℕ, Bool, Bytes, codes}
use php_couchbase.Zval.{Entries, end}
use php_couchbase.Search.{minus_one, add_string, add_boost}

-- pcbc_query_string_search_query_t
pub record QueryStringQuery : Type 0 where
  pub boost : ℕ
  pub query : Bytes

-- pcbc_query_string_search_query_init
unfoldable pub text_init : Bytes → QueryStringQuery
text_init query = record { boost = minus_one; query = query }

unfoldable pub text_boost : ℕ → QueryStringQuery → QueryStringQuery
text_boost boost q = record q { boost = boost }

-- jsonSerialize
unfoldable pub text_json : (ℕ → Bool) → QueryStringQuery → Entries
unfolding add_string
text_json at_least_zero q = add_boost at_least_zero q.boost (add_string (codes "query") q.query end)
