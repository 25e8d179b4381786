-- ===== src/Search/Factories/Made.antt =====
-- search_query.c: of which class the objects are, and that they have no boost.
use php_couchbase.Base.{ℕ, ◌≡◌, refl, Bool, false, none, codes, bytes_eq}
use php_couchbase.Query.Options.{find_option}
use php_couchbase.Search.{minus_one, add_boost, add_text}
use php_couchbase.Search.Factories.{
  QueryPart, match_part, match_phrase_part, query_string_part, regexp_part, boolean_field_part,
  disjunction_part, conjunction_part, phrase_part, doc_id_part, wildcard_part, term_part,
  prefix_part, match_none_part, match_all_part, date_range_part, numeric_range_part,
  term_range_part, boolean_part, geo_distance_part, geo_bounding_box_part, PartCall, match_call,
  match_phrase_call, query_string_call, regexp_call, boolean_field_call, disjuncts_call,
  conjuncts_call, phrase_call, doc_id_call, wildcard_call, term_call, prefix_call, match_none_call,
  match_all_call, date_range_call, numeric_range_call, term_range_call, boolean_call,
  geo_distance_call, geo_bounding_box_call, made, part_json,
}

-- The classes, and the one that the comment above a method names.
pub data Class : Type 0 where
  match_class : Class
  match_phrase_class : Class
  query_string_class : Class
  regexp_class : Class
  boolean_field_class : Class
  disjuncts_class : Class
  conjuncts_class : Class
  phrase_class : Class
  doc_id_class : Class
  wildcard_class : Class
  term_class : Class
  prefix_class : Class
  match_none_class : Class
  match_all_class : Class
  date_range_class : Class
  numeric_range_class : Class
  term_range_class : Class
  boolean_class : Class
  geo_distance_class : Class
  geo_bounding_box_class : Class

abbrev pub class_of : QueryPart → Class
class_of (match_part q) = match_class
class_of (match_phrase_part q) = match_phrase_class
class_of (query_string_part q) = query_string_class
class_of (regexp_part q) = regexp_class
class_of (boolean_field_part q) = boolean_field_class
class_of (disjunction_part q) = disjuncts_class
class_of (conjunction_part q) = conjuncts_class
class_of (phrase_part q) = phrase_class
class_of (doc_id_part q) = doc_id_class
class_of (wildcard_part q) = wildcard_class
class_of (term_part q) = term_class
class_of (prefix_part q) = prefix_class
class_of (match_none_part q) = match_none_class
class_of (match_all_part q) = match_all_class
class_of (date_range_part q) = date_range_class
class_of (numeric_range_part q) = numeric_range_class
class_of (term_range_part q) = term_range_class
class_of (boolean_part q) = boolean_class
class_of (geo_distance_part q) = geo_distance_class
class_of (geo_bounding_box_part q) = geo_bounding_box_class

abbrev pub documented_class : PartCall → Class
documented_class (match_call x) = match_class
documented_class (match_phrase_call x) = match_phrase_class
documented_class (query_string_call x) = query_string_class
documented_class (regexp_call x) = regexp_class
documented_class (boolean_field_call x) = boolean_field_class
documented_class (disjuncts_call args) = disjuncts_class
documented_class (conjuncts_call args) = conjuncts_class
documented_class (phrase_call args) = phrase_class
documented_class (doc_id_call args) = doc_id_class
documented_class (wildcard_call x) = wildcard_class
documented_class (term_call x) = term_class
documented_class (prefix_call x) = prefix_class
documented_class match_none_call = match_none_class
documented_class match_all_call = match_all_class
documented_class date_range_call = date_range_class
documented_class numeric_range_call = numeric_range_class
documented_class term_range_call = term_range_class
documented_class boolean_call = boolean_class
documented_class (geo_distance_call longitude latitude distance) = geo_distance_class
documented_class (geo_bounding_box_call left top right bottom) = geo_bounding_box_class

abbrev pub unless_all : Class → Class
unless_all match_all_class = match_none_class
unless_all c = c

-- The static methods of SearchQuery make objects of the classes that are documented, but for matchAll,
-- whose object is a MatchNoneSearchQuery. Until a boost is set, none of them is serialised with one.
-- The double -1 is not at least zero.
pub part_json-made :
    (is_part at_least_zero : ℕ → Bool) (call : PartCall)
    → at_least_zero minus_one ≡ false
    → (class_of (made is_part call) ≡ unless_all (documented_class call))
      × (find_option (codes "boost") (part_json at_least_zero (made is_part call)) ≡ none)
unfolding made part_json bytes_eq add_boost add_text
part_json-made is_part at_least_zero (match_call x) h = (refl, rw h refl)
part_json-made is_part at_least_zero (match_phrase_call x) h = (refl, rw h refl)
part_json-made is_part at_least_zero (query_string_call x) h = (refl, rw h refl)
part_json-made is_part at_least_zero (regexp_call x) h = (refl, rw h refl)
part_json-made is_part at_least_zero (boolean_field_call x) h = (refl, rw h refl)
part_json-made is_part at_least_zero (disjuncts_call args) h = (refl, rw h refl)
part_json-made is_part at_least_zero (conjuncts_call args) h = (refl, rw h refl)
part_json-made is_part at_least_zero (phrase_call args) h = (refl, rw h refl)
part_json-made is_part at_least_zero (doc_id_call args) h = (refl, rw h refl)
part_json-made is_part at_least_zero (wildcard_call x) h = (refl, rw h refl)
part_json-made is_part at_least_zero (term_call x) h = (refl, rw h refl)
part_json-made is_part at_least_zero (prefix_call x) h = (refl, rw h refl)
part_json-made is_part at_least_zero match_none_call h = (refl, rw h refl)
part_json-made is_part at_least_zero match_all_call h = (refl, rw h refl)
part_json-made is_part at_least_zero date_range_call h = (refl, rw h refl)
part_json-made is_part at_least_zero numeric_range_call h = (refl, rw h refl)
part_json-made is_part at_least_zero term_range_call h = (refl, rw h refl)
part_json-made is_part at_least_zero boolean_call h = (refl, rw h refl)
part_json-made is_part at_least_zero (geo_distance_call longitude latitude distance) h =
    (refl, rw h refl)
part_json-made is_part at_least_zero (geo_bounding_box_call left top right bottom) h =
    (refl, rw h refl)
