-- ===== src/Search.antt =====
-- The queries of full text search, src/couchbase/search: the fields that their objects hold and the
-- arrays that jsonSerialize makes. This module holds the steps that their files repeat; DateRange is
-- search/date_range_query.c, Match match_query.c, MatchPhrase match_phrase_query.c, NumericRange
-- numeric_range_query.c, Term term_query.c, TermRange term_range_query.c, Text query_string_query.c;
-- Pattern is prefix_query.c, regexp_query.c, wildcard_query.c and boolean_field_query.c; Compound is
-- boolean_query.c, conjunction_query.c, disjunction_query.c, match_all_query.c and match_none_query.c;
-- Terms is doc_id_query.c and phrase_query.c, Geo geo_distance_query.c and geo_bounding_box_query.c,
-- Facets the facets, Request src/couchbase/search_query.c, and Factories the static methods in it.
pub mod DateRange
pub mod Match
pub mod MatchPhrase
pub mod NumericRange
pub mod Pattern
pub mod Request
pub mod Compound
pub mod Terms
pub mod Geo
pub mod Facets
pub mod Factories
pub mod Term
pub mod TermRange
pub mod Text
use php_couchbase.Base.{
  ℕ, suc, List, [], ◌∷◌, ◌++◌, ◌%◌, ◌^◌, Bool, Option, none, some, Bytes, codes, ltb, if◌then◌else◌,
}
use php_couchbase.Zval.{Zval, Entries, string, long, double, array, num, end, entry}
use php_couchbase.MutationToken.{estrdup}
use php_couchbase.Query.{add_assoc}

-- The double -1.
abbrev pub minus_one : ℕ
minus_one = 13830554455654793216

-- The int -1.
abbrev pub unset : ℕ
unset = 4294967295

-- A long that is stored in an int.
abbrev pub to_int : ℕ → ℕ
to_int n = n % 2 ^ 32

-- ADD_ASSOC_STRING, which reads a text up to its first NUL.
unfoldable pub add_string : Bytes → Bytes → Entries → Entries
unfolding estrdup
add_string name text es = add_assoc name (string (estrdup text)) es

-- A text that may be NULL.
unfoldable pub add_text : Bytes → Option Bytes → Entries → Entries
unfolding add_string
add_text name none es = es
add_text name (some text) es = add_string name text es

-- An int that is left out when it is negative.
unfoldable pub add_int : Bytes → ℕ → Entries → Entries
unfolding add_assoc
add_int name n es = if ltb n (2 ^ 31) then add_assoc name (long n) es else es

-- The last entry; `at_least_zero` is the test of `boost >= 0` on the patterns of doubles.
unfoldable pub add_boost : (ℕ → Bool) → ℕ → Entries → Entries
unfolding add_assoc
add_boost at_least_zero boost es =
    if at_least_zero boost then add_assoc (codes "boost") (double boost) es else es

-- The loop over the arguments, which skips those that are no strings.
unfoldable pub add_texts : List Zval → List Zval → List Zval
add_texts [] fields = fields
add_texts (string text ∷ args) fields = add_texts args (fields ++ string text ∷ [])
add_texts (z ∷ args) fields = add_texts args fields

-- An array that is built by appending.
unfoldable pub numbered : ℕ → List Zval → Entries
numbered i [] = end
numbered i (z ∷ l) = entry (num i) z (numbered (suc i) l)

-- One that may be undefined.
unfoldable pub add_list : Bytes → Option (List Zval) → Entries → Entries
unfolding add_assoc numbered
add_list name none es = es
add_list name (some l) es = add_assoc name (array (numbered 0 l)) es
