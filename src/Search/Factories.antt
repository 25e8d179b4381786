-- ===== src/Search/Factories.antt =====
-- src/couchbase/search_query.c: the static methods of SearchQuery, and what the parts of a query that
-- they make are serialised as.
pub mod Made
use php_couchbase.Base.{ℕ, Bool, List, Bytes}
use php_couchbase.Zval.{Zval, Entries}
use php_couchbase.Search.Match.{MatchQuery, match_init, match_json}
use php_couchbase.Search.MatchPhrase.{MatchPhraseQuery, phrase_init, phrase_json}
use php_couchbase.Search.Text.{QueryStringQuery, text_init, text_json}
use php_couchbase.Search.Pattern.{
  PatternQuery, pattern_init, regexp_json, BooleanFieldQuery, boolean_init, boolean_json,
  wildcard_json, prefix_json,
}
use php_couchbase.Search.Compound.{
  DisjunctionQuery, disjunction_init, disjunction_json, ConjunctionQuery, conjunction_init,
  conjunction_json, ConstantQuery, constant_init, match_none_json, match_all_json, BooleanQuery,
  compound_init, compound_json,
}
use php_couchbase.Search.Terms.{
  PhraseQuery, terms_init, terms_json, DocIdQuery, doc_id_init, doc_id_json,
}
use php_couchbase.Search.Term.{TermQuery, term_init, term_json}
use php_couchbase.Search.DateRange.{DateRangeQuery, date_init, date_json}
use php_couchbase.Search.NumericRange.{NumericRangeQuery, numeric_init, numeric_json}
use php_couchbase.Search.TermRange.{TermRangeQuery, term_range_init, term_range_json}
use php_couchbase.Search.Geo.{
  GeoDistanceQuery, distance_init, distance_json, GeoBoundingBoxQuery, box_init, box_json,
}
use php_couchbase.Search.Facets.{
  Facet, facet_init, term_facet_json, date_facet_json, numeric_facet_json,
}

-- An object of a class of queries.
pub data QueryPart : Type 0 where
  match_part : MatchQuery → QueryPart
  match_phrase_part : MatchPhraseQuery → QueryPart
  query_string_part : QueryStringQuery → QueryPart
  regexp_part : PatternQuery → QueryPart
  boolean_field_part : BooleanFieldQuery → QueryPart
  disjunction_part : DisjunctionQuery → QueryPart
  conjunction_part : ConjunctionQuery → QueryPart
  phrase_part : PhraseQuery → QueryPart
  doc_id_part : DocIdQuery → QueryPart
  wildcard_part : PatternQuery → QueryPart
  term_part : TermQuery → QueryPart
  prefix_part : PatternQuery → QueryPart
  match_none_part : ConstantQuery → QueryPart
  match_all_part : ConstantQuery → QueryPart
  date_range_part : DateRangeQuery → QueryPart
  numeric_range_part : NumericRangeQuery → QueryPart
  term_range_part : TermRangeQuery → QueryPart
  boolean_part : BooleanQuery → QueryPart
  geo_distance_part : GeoDistanceQuery → QueryPart
  geo_bounding_box_part : GeoBoundingBoxQuery → QueryPart

-- A call of one of the methods.
pub data PartCall : Type 0 where
  match_call : Bytes → PartCall
  match_phrase_call : Bytes → PartCall
  query_string_call : Bytes → PartCall
  regexp_call : Bytes → PartCall
  boolean_field_call : Bool → PartCall
  disjuncts_call : List Zval → PartCall
  conjuncts_call : List Zval → PartCall
  phrase_call : List Zval → PartCall
  doc_id_call : List Zval → PartCall
  wildcard_call : Bytes → PartCall
  term_call : Bytes → PartCall
  prefix_call : Bytes → PartCall
  match_none_call : PartCall
  match_all_call : PartCall
  date_range_call : PartCall
  numeric_range_call : PartCall
  term_range_call : PartCall
  boolean_call : PartCall
  geo_distance_call : ℕ → ℕ → Bytes → PartCall
  geo_bounding_box_call : ℕ → ℕ → ℕ → ℕ → PartCall

-- The methods of the same names.
unfoldable pub made : (ℕ → Bool) → PartCall → QueryPart
unfolding match_init phrase_init text_init pattern_init boolean_init disjunction_init
    conjunction_init terms_init doc_id_init term_init constant_init date_init numeric_init
    term_range_init compound_init distance_init box_init
made is_part (match_call x) = match_part (match_init x)
made is_part (match_phrase_call x) = match_phrase_part (phrase_init x)
made is_part (query_string_call x) = query_string_part (text_init x)
made is_part (regexp_call x) = regexp_part (pattern_init x)
made is_part (boolean_field_call x) = boolean_field_part (boolean_init x)
made is_part (disjuncts_call args) = disjunction_part (disjunction_init is_part args)
made is_part (conjuncts_call args) = conjunction_part (conjunction_init is_part args)
made is_part (phrase_call args) = phrase_part (terms_init args)
made is_part (doc_id_call args) = doc_id_part (doc_id_init args)
made is_part (wildcard_call x) = wildcard_part (pattern_init x)
made is_part (term_call x) = term_part (term_init x)
made is_part (prefix_call x) = prefix_part (pattern_init x)
made is_part match_none_call = match_none_part constant_init
made is_part match_all_call = match_none_part constant_init
made is_part date_range_call = date_range_part date_init
made is_part numeric_range_call = numeric_range_part numeric_init
made is_part term_range_call = term_range_part term_range_init
made is_part boolean_call = boolean_part compound_init
made is_part (geo_distance_call longitude latitude distance) =
    geo_distance_part (distance_init longitude latitude distance)
made is_part (geo_bounding_box_call left top right bottom) =
    geo_bounding_box_part (box_init left top right bottom)

-- jsonSerialize of an object, by its class.
unfoldable pub part_json : (ℕ → Bool) → QueryPart → Entries
unfolding match_json phrase_json text_json regexp_json boolean_json disjunction_json
    conjunction_json terms_json doc_id_json wildcard_json term_json prefix_json match_none_json
    match_all_json date_json numeric_json term_range_json compound_json distance_json box_json
part_json at_least_zero (match_part q) = match_json at_least_zero q
part_json at_least_zero (match_phrase_part q) = phrase_json at_least_zero q
part_json at_least_zero (query_string_part q) = text_json at_least_zero q
part_json at_least_zero (regexp_part q) = regexp_json at_least_zero q
part_json at_least_zero (boolean_field_part q) = boolean_json at_least_zero q
part_json at_least_zero (disjunction_part q) = disjunction_json at_least_zero q
part_json at_least_zero (conjunction_part q) = conjunction_json at_least_zero q
part_json at_least_zero (phrase_part q) = terms_json at_least_zero q
part_json at_least_zero (doc_id_part q) = doc_id_json at_least_zero q
part_json at_least_zero (wildcard_part q) = wildcard_json at_least_zero q
part_json at_least_zero (term_part q) = term_json at_least_zero q
part_json at_least_zero (prefix_part q) = prefix_json at_least_zero q
part_json at_least_zero (match_none_part q) = match_none_json at_least_zero q
part_json at_least_zero (match_all_part q) = match_all_json at_least_zero q
part_json at_least_zero (date_range_part q) = date_json at_least_zero q
part_json at_least_zero (numeric_range_part q) = numeric_json at_least_zero q
part_json at_least_zero (term_range_part q) = term_range_json at_least_zero q
part_json at_least_zero (boolean_part q) = compound_json at_least_zero q
part_json at_least_zero (geo_distance_part q) = distance_json at_least_zero q
part_json at_least_zero (geo_bounding_box_part q) = box_json at_least_zero q

-- A facet, of terms, dates or numbers, and the methods that make one.
pub data FacetPart : Type 0 where
  term_facet_part date_facet_part numeric_facet_part : Facet → FacetPart

pub data FacetCall : Type 0 where
  term_facet_call date_range_facet_call numeric_range_facet_call : Bytes → ℕ → FacetCall

unfoldable pub made_facet : FacetCall → FacetPart
unfolding facet_init
made_facet (term_facet_call field limit) = term_facet_part (facet_init field limit)
made_facet (date_range_facet_call field limit) = date_facet_part (facet_init field limit)
made_facet (numeric_range_facet_call field limit) = numeric_facet_part (facet_init field limit)

unfoldable pub facet_json : FacetPart → Entries
unfolding term_facet_json date_facet_json numeric_facet_json
facet_json (term_facet_part facet) = term_facet_json facet
facet_json (date_facet_part facet) = date_facet_json facet
facet_json (numeric_facet_part facet) = numeric_facet_json facet
