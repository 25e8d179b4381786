-- ===== src/Search/MatchPhrase.antt =====
-- src/couchbase/search/match_phrase_query.c. A method gives the query that it leaves.
use php_couchbase.Base.{ℕ, Bool, Option, none, some, Bytes, codes}
use php_couchbase.Zval.{Entries, end}
use php_couchbase.Search.{minus_one, add_string, add_text, add_boost}

-- pcbc_match_phrase_search_query_t
pub record MatchPhraseQuery : Type 0 where
  pub boost : ℕ
  pub field : Option Bytes
  pub analyzer : Option Bytes
  pub match_phrase : Bytes

-- pcbc_match_phrase_search_query_init
unfoldable pub phrase_init : Bytes → MatchPhraseQuery
phrase_init match_phrase = record {
  boost = minus_one;
  field = none;
  analyzer = none;
  match_phrase = match_phrase;
}

unfoldable pub phrase_analyzer : Bytes → MatchPhraseQuery → MatchPhraseQuery
phrase_analyzer text q = record q { analyzer = some text }

unfoldable pub phrase_field : Bytes → MatchPhraseQuery → MatchPhraseQuery
phrase_field text q = record q { field = some text }

unfoldable pub phrase_boost : ℕ → MatchPhraseQuery → MatchPhraseQuery
phrase_boost boost q = record q { boost = boost }

-- jsonSerialize
unfoldable pub phrase_json : (ℕ → Bool) → MatchPhraseQuery → Entries
unfolding add_string
phrase_json at_least_zero q =
    let fielded =
      add_text (codes "field") q.field (add_string (codes "match_phrase") q.match_phrase end) in
    add_boost at_least_zero q.boost (add_text (codes "analyzer") q.analyzer fielded)
