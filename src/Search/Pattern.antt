-- ===== src/Search/Pattern.antt =====
-- src/couchbase/search: prefix_query.c, regexp_query.c and wildcard_query.c, three files of one text
-- that differ in the name of their pattern; and boolean_field_query.c. A method gives the query that
-- it leaves.
use php_couchbase.Base.{ℕ, Bool, Option, none, some, Bytes, codes}
use php_couchbase.Zval.{Entries, bool, end}
use php_couchbase.Query.{add_assoc}
use php_couchbase.Search.{minus_one, add_string, add_text, add_boost}

-- pcbc_prefix_search_query_t, pcbc_regexp_search_query_t and pcbc_wildcard_search_query_t
pub record PatternQuery : Type 0 where
  pub boost : ℕ
  pub field : Option Bytes
  pub pattern : Bytes

-- pcbc_prefix_search_query_init and its like
unfoldable pub pattern_init : Bytes → PatternQuery
pattern_init pattern = record { boost = minus_one; field = none; pattern = pattern }

unfoldable pub pattern_field : Bytes → PatternQuery → PatternQuery
pattern_field text q = record q { field = some text }

unfoldable pub pattern_boost : ℕ → PatternQuery → PatternQuery
pattern_boost boost q = record q { boost = boost }

pattern_json : Bytes → (ℕ → Bool) → PatternQuery → Entries
unfolding add_string
pattern_json name at_least_zero q =
    add_boost at_least_zero q.boost
      (add_text (codes "field") q.field (add_string name q.pattern end))

-- jsonSerialize of the three.
unfoldable pub prefix_json : (ℕ → Bool) → PatternQuery → Entries
unfolding pattern_json
prefix_json at_least_zero q = pattern_json (codes "prefix") at_least_zero q

unfoldable pub regexp_json : (ℕ → Bool) → PatternQuery → Entries
unfolding pattern_json
regexp_json at_least_zero q = pattern_json (codes "regexp") at_least_zero q

unfoldable pub wildcard_json : (ℕ → Bool) → PatternQuery → Entries
unfolding pattern_json
wildcard_json at_least_zero q = pattern_json (codes "wildcard") at_least_zero q

-- pcbc_boolean_field_search_query_t
pub record BooleanFieldQuery : Type 0 where
  pub boost : ℕ
  pub field : Option Bytes
  pub value : Bool

-- pcbc_boolean_field_search_query_init
unfoldable pub boolean_init : Bool → BooleanFieldQuery
boolean_init value = record { boost = minus_one; field = none; value = value }

unfoldable pub boolean_field : Bytes → BooleanFieldQuery → BooleanFieldQuery
boolean_field text q = record q { field = some text }

unfoldable pub boolean_boost : ℕ → BooleanFieldQuery → BooleanFieldQuery
boolean_boost boost q = record q { boost = boost }

-- jsonSerialize
unfoldable pub boolean_json : (ℕ → Bool) → BooleanFieldQuery → Entries
unfolding add_assoc
boolean_json at_least_zero q =
    let fielded = add_text (codes "field") q.field (add_assoc (codes "bool") (bool q.value) end) in
    add_boost at_least_zero q.boost fielded
