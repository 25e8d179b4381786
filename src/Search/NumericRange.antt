-- ===== src/Search/NumericRange.antt =====
-- src/couchbase/search/numeric_range_query.c. A method gives the query that it leaves; doubles are
-- patterns. The allocation clears the fields that init leaves out.
use php_couchbase.Base.{ℕ, Bool, true, false, Option, none, some, Bytes, codes, if◌then◌else◌}
use php_couchbase.Zval.{Entries, bool, double, end}
use php_couchbase.Query.{add_assoc}
use php_couchbase.Search.{minus_one, add_text, add_boost}

-- pcbc_numeric_range_search_query_t
pub record NumericRangeQuery : Type 0 where
  pub boost : ℕ
  pub field : Option Bytes
  pub min : ℕ
  pub max : ℕ
  pub inclusive_min : Bool
  pub inclusive_max : Bool
  pub min_set : Bool
  pub max_set : Bool

-- pcbc_numeric_range_search_query_init
unfoldable pub numeric_init : NumericRangeQuery
numeric_init = record {
  boost = minus_one;
  field = none;
  min = 0;
  max = 0;
  inclusive_min = false;
  inclusive_max = false;
  min_set = false;
  max_set = false;
}

unfoldable pub numeric_field : Bytes → NumericRangeQuery → NumericRangeQuery
numeric_field text q = record q { field = some text }

unfoldable pub numeric_boost : ℕ → NumericRangeQuery → NumericRangeQuery
numeric_boost boost q = record q { boost = boost }

unfoldable pub numeric_min : ℕ → Bool → NumericRangeQuery → NumericRangeQuery
numeric_min min inclusive q = record q { min = min; min_set = true; inclusive_min = inclusive }

unfoldable pub numeric_max : ℕ → Bool → NumericRangeQuery → NumericRangeQuery
numeric_max max inclusive q = record q { max = max; max_set = true; inclusive_max = inclusive }

add_bound : Bytes → Bytes → Bool → ℕ → Bool → Entries → Entries
unfolding add_assoc
add_bound name flag set bound inclusive es =
    if set then add_assoc flag (bool inclusive) (add_assoc name (double bound) es) else es

-- jsonSerialize
unfoldable pub numeric_json : (ℕ → Bool) → NumericRangeQuery → Entries
unfolding add_bound
numeric_json at_least_zero q =
    let low = add_bound (codes "min") (codes "inclusive_min") q.min_set q.min q.inclusive_min end in
    let both =
      add_bound (codes "max") (codes "inclusive_max") q.max_set q.max q.inclusive_max low in
    add_boost at_least_zero q.boost (add_text (codes "field") q.field both)
