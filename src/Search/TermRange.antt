-- ===== src/Search/TermRange.antt =====
-- src/couchbase/search/term_range_query.c. A method gives the query that it leaves. A bound is a text
-- with its length; the allocation clears the flags.
use php_couchbase.Base.{ℕ, Bool, false, Option, none, some, Bytes, codes}
use php_couchbase.Zval.{Entries, bool, string, end}
use php_couchbase.Query.{add_assoc}
use php_couchbase.Search.{minus_one, add_text, add_boost}

-- pcbc_term_range_search_query_t
pub record TermRangeQuery : Type 0 where
  pub boost : ℕ
  pub field : Option Bytes
  pub min : Option Bytes
  pub max : Option Bytes
  pub inclusive_min : Bool
  pub inclusive_max : Bool

-- pcbc_term_range_search_query_init
unfoldable pub term_range_init : TermRangeQuery
term_range_init = record {
  boost = minus_one;
  field = none;
  min = none;
  max = none;
  inclusive_min = false;
  inclusive_max = false;
}

unfoldable pub term_range_field : Bytes → TermRangeQuery → TermRangeQuery
term_range_field text q = record q { field = some text }

unfoldable pub term_range_boost : ℕ → TermRangeQuery → TermRangeQuery
term_range_boost boost q = record q { boost = boost }

unfoldable pub term_range_min : Bytes → Bool → TermRangeQuery → TermRangeQuery
term_range_min min inclusive q = record q { min = some min; inclusive_min = inclusive }

unfoldable pub term_range_max : Bytes → Bool → TermRangeQuery → TermRangeQuery
term_range_max max inclusive q = record q { max = some max; inclusive_max = inclusive }

add_term_bound : Bytes → Bytes → Option Bytes → Bool → Entries → Entries
unfolding add_assoc
add_term_bound name flag none inclusive es = es
add_term_bound name flag (some text) inclusive es =
    add_assoc flag (bool inclusive) (add_assoc name (string text) es)

-- jsonSerialize
unfoldable pub term_range_json : (ℕ → Bool) → TermRangeQuery → Entries
unfolding add_term_bound
term_range_json at_least_zero q =
    let low = add_term_bound (codes "min") (codes "inclusive_min") q.min q.inclusive_min end in
    let both = add_term_bound (codes "max") (codes "inclusive_max") q.max q.inclusive_max low in
    add_boost at_least_zero q.boost (add_text (codes "field") q.field both)
