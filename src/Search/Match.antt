-- ===== src/Search/Match.antt =====
-- src/couchbase/search/match_query.c. A method gives the query that it leaves.
use php_couchbase.Base.{ℕ, Bool, Option, none, some, Bytes, codes}
use php_couchbase.Zval.{Entries, end}
use php_couchbase.Search.{minus_one, unset, to_int, add_string, add_text, add_int, add_boost}

-- pcbc_match_search_query_t
pub record MatchQuery : Type 0 where
  pub boost : ℕ
  pub field : Option Bytes
  pub analyzer : Option Bytes
  pub text : Bytes
  pub prefix_length : ℕ
  pub fuzziness : ℕ

-- pcbc_match_search_query_init
unfoldable pub match_init : Bytes → MatchQuery
match_init text = record {
  boost = minus_one;
  field = none;
  analyzer = none;
  text = text;
  prefix_length = unset;
  fuzziness = unset;
}

unfoldable pub match_analyzer : Bytes → MatchQuery → MatchQuery
match_analyzer text q = record q { analyzer = some text }

unfoldable pub match_field : Bytes → MatchQuery → MatchQuery
match_field text q = record q { field = some text }

unfoldable pub match_prefix_length : ℕ → MatchQuery → MatchQuery
match_prefix_length n q = record q { prefix_length = to_int n }

unfoldable pub match_fuzziness : ℕ → MatchQuery → MatchQuery
match_fuzziness n q = record q { fuzziness = to_int n }

unfoldable pub match_boost : ℕ → MatchQuery → MatchQuery
match_boost boost q = record q { boost = boost }

-- jsonSerialize
unfoldable pub match_json : (ℕ → Bool) → MatchQuery → Entries
unfolding add_string
match_json at_least_zero q =
    let matched = add_string (codes "match") q.text end in
    let analyzed =
      add_text (codes "analyzer") q.analyzer (add_text (codes "field") q.field matched) in
    let sized = add_int (codes "prefix_length") q.prefix_length analyzed in
    add_boost at_least_zero q.boost (add_int (codes "fuzziness") q.fuzziness sized)
