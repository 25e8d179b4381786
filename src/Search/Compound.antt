-- ===== src/Search/Compound.antt =====
-- src/couchbase/search: boolean_query.c, conjunction_query.c and disjunction_query.c, the queries that
-- are made of others, and match_all_query.c and match_none_query.c. A method gives the query that it
-- leaves. `is_part` says which objects implement SearchQueryPart.
pub mod Parts
use php_couchbase.Base.{ℕ, Bool, List, [], ◌∷◌, ◌++◌, Option, none, some, codes, if◌then◌else◌}
use php_couchbase.Zval.{Zval, Entries, object, null, array, end}
use php_couchbase.Query.{add_assoc}
use php_couchbase.Search.{minus_one, unset, to_int, numbered, add_list, add_int, add_boost}

-- The loop over the arguments, which skips those that are no parts of a query.
unfoldable pub add_parts : (ℕ → Bool) → List Zval → List Zval → List Zval
add_parts is_part [] queries = queries
add_parts is_part (object o ∷ args) queries =
    add_parts is_part args (if is_part o then queries ++ object o ∷ [] else queries)
add_parts is_part (z ∷ args) queries = add_parts is_part args queries

-- pcbc_boolean_search_query_t; `none` is undefined.
pub record BooleanQuery : Type 0 where
  pub boost : ℕ
  pub must : Option (List Zval)
  pub must_not : Option (List Zval)
  pub should : Option (List Zval)

-- pcbc_boolean_search_query_init
unfoldable pub compound_init : BooleanQuery
compound_init = record { boost = minus_one; must = none; must_not = none; should = none }

unfoldable pub compound_boost : ℕ → BooleanQuery → BooleanQuery
compound_boost boost q = record q { boost = boost }

-- pcbc_conjunction_search_query_t
pub record ConjunctionQuery : Type 0 where
  pub boost : ℕ
  pub queries : List Zval

unfoldable pub conjunction_boost : ℕ → ConjunctionQuery → ConjunctionQuery
conjunction_boost boost q = record q { boost = boost }

-- pcbc_disjunction_search_query_t; `min` is the pattern of an int.
pub record DisjunctionQuery : Type 0 where
  pub boost : ℕ
  pub min : ℕ
  pub queries : List Zval

unfoldable pub disjunction_boost : ℕ → DisjunctionQuery → DisjunctionQuery
disjunction_boost boost q = record q { boost = boost }

unfoldable pub disjunction_min : ℕ → DisjunctionQuery → DisjunctionQuery
disjunction_min min q = record q { min = to_int min }

module _ (is_part : ℕ → Bool) where
  -- BooleanSearchQuery::must, mustNot and should start a new array in each call.
  unfoldable pub set_must : List Zval → BooleanQuery → BooleanQuery
  unfolding add_parts
  set_must args q = record q { must = some (add_parts is_part args []) }

  unfoldable pub set_must_not : List Zval → BooleanQuery → BooleanQuery
  unfolding add_parts
  set_must_not args q = record q { must_not = some (add_parts is_part args []) }

  unfoldable pub set_should : List Zval → BooleanQuery → BooleanQuery
  unfolding add_parts
  set_should args q = record q { should = some (add_parts is_part args []) }

  -- pcbc_conjunction_search_query_init and ConjunctionSearchQuery::every
  unfoldable pub conjunction_init : List Zval → ConjunctionQuery
  unfolding add_parts
  conjunction_init args = record { boost = minus_one; queries = add_parts is_part args [] }

  unfoldable pub every : List Zval → ConjunctionQuery → ConjunctionQuery
  unfolding add_parts
  every args q = record q { queries = add_parts is_part args q.queries }

  -- pcbc_disjunction_search_query_init and DisjunctionSearchQuery::either
  unfoldable pub disjunction_init : List Zval → DisjunctionQuery
  unfolding add_parts
  disjunction_init args = record {
    boost = minus_one;
    min = unset;
    queries = add_parts is_part args [];
  }

  unfoldable pub either : List Zval → DisjunctionQuery → DisjunctionQuery
  unfolding add_parts
  either args q = record q { queries = add_parts is_part args q.queries }

-- jsonSerialize
unfoldable pub compound_json : (ℕ → Bool) → BooleanQuery → Entries
unfolding add_list
compound_json at_least_zero q =
    let required = add_list (codes "must_not") q.must_not (add_list (codes "must") q.must end) in
    add_boost at_least_zero q.boost (add_list (codes "should") q.should required)

unfoldable pub conjunction_json : (ℕ → Bool) → ConjunctionQuery → Entries
unfolding add_assoc numbered
conjunction_json at_least_zero q =
    add_boost at_least_zero q.boost
      (add_assoc (codes "conjuncts") (array (numbered 0 q.queries)) end)

unfoldable pub disjunction_json : (ℕ → Bool) → DisjunctionQuery → Entries
unfolding add_assoc numbered add_int
disjunction_json at_least_zero q =
    let listed = add_assoc (codes "disjuncts") (array (numbered 0 q.queries)) end in
    add_boost at_least_zero q.boost (add_int (codes "min") q.min listed)

-- pcbc_match_all_search_query_t and pcbc_match_none_search_query_t, which hold a boost alone.
pub record ConstantQuery : Type 0 where
  pub boost : ℕ

unfoldable pub constant_init : ConstantQuery
constant_init = record { boost = minus_one }

unfoldable pub constant_boost : ℕ → ConstantQuery → ConstantQuery
constant_boost boost q = record q { boost = boost }

unfoldable pub match_all_json : (ℕ → Bool) → ConstantQuery → Entries
unfolding add_assoc
match_all_json at_least_zero q =
    add_boost at_least_zero q.boost (add_assoc (codes "match_all") null end)

unfoldable pub match_none_json : (ℕ → Bool) → ConstantQuery → Entries
unfolding add_assoc
match_none_json at_least_zero q =
    add_boost at_least_zero q.boost (add_assoc (codes "match_none") null end)
