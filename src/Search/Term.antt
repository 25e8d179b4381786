-- ===== src/Search/Term.antt =====
-- src/couchbase/search/term_query.c. A method gives the query that it leaves.
use php_couchbase.Base.{ℕ, Bool, Option, none, some, Bytes, codes}
use php_couchbase.Zval.{Entries, end}
use php_couchbase.Search.{minus_one, unset, to_int, add_string, add_text, add_int, add_boost}

-- pcbc_term_search_query_t
pub record TermQuery : Type 0 where
  pub boost : ℕ
  pub field : Option Bytes
  pub term : Bytes
  pub prefix_length : ℕ
  pub fuzziness : ℕ

-- pcbc_term_search_query_init
unfoldable pub term_init : Bytes → TermQuery
term_init term = record {
  boost = minus_one;
  field = none;
  term = term;
  prefix_length = unset;
  fuzziness = unset;
}

unfoldable pub term_field : Bytes → TermQuery → TermQuery
term_field text q = record q { field = some text }

unfoldable pub term_prefix_length : ℕ → TermQuery → TermQuery
term_prefix_length n q = record q { prefix_length = to_int n }

unfoldable pub term_fuzziness : ℕ → TermQuery → TermQuery
term_fuzziness n q = record q { fuzziness = to_int n }

unfoldable pub term_boost : ℕ → TermQuery → TermQuery
term_boost boost q = record q { boost = boost }

-- jsonSerialize
unfoldable pub term_json : (ℕ → Bool) → TermQuery → Entries
unfolding add_string
term_json at_least_zero q =
    let fielded = add_text (codes "field") q.field (add_string (codes "term") q.term end) in
    let sized = add_int (codes "prefix_length") q.prefix_length fielded in
    add_boost at_least_zero q.boost (add_int (codes "fuzziness") q.fuzziness sized)
