-- ===== src/Search/Facets.antt =====
-- src/couchbase/search: term_facet.c, date_range_facet.c and numeric_range_facet.c. A method gives the
-- facet that it leaves, and `addRange` of a date range `false` with it when it throws.
use php_couchbase.Base.{
  ℕ, ◌+◌, ◌-◌, ◌^◌, Bool, true, false, List, [], ◌∷◌, ◌++◌, Option, none, some, Bytes, codes, ltb,
  if◌then◌else◌,
}
use php_couchbase.Zval.{Zval, Entries, null, long, double, string, array, end}
use php_couchbase.Query.{add_assoc}
use php_couchbase.Search.{to_int, numbered, add_string}

-- pcbc_term_search_facet_t, date_range_search_facet_t and pcbc_numeric_range_search_facet_t, of which a
-- facet of terms has no ranges; `limit` is the pattern of an int.
pub record Facet : Type 0 where
  pub field : Bytes
  pub limit : ℕ
  pub ranges : List Zval

-- pcbc_term_search_facet_init and its like
unfoldable pub facet_init : Bytes → ℕ → Facet
facet_init field limit = record { field = field; limit = to_int limit; ranges = [] }

-- An int as a long, which extends its sign.
extended : ℕ → ℕ
extended n = if ltb n (2 ^ 31) then n else n + (2 ^ 64 - 2 ^ 32)

unfoldable pub term_facet_json : Facet → Entries
unfolding add_string add_assoc extended
term_facet_json f =
    add_assoc (codes "size") (long (extended f.limit)) (add_string (codes "field") f.field end)

ranges_json : Bytes → Facet → Entries
unfolding term_facet_json numbered add_assoc
ranges_json name f = add_assoc name (array (numbered 0 f.ranges)) (term_facet_json f)

unfoldable pub date_facet_json : Facet → Entries
unfolding ranges_json
date_facet_json f = ranges_json (codes "date_ranges") f

unfoldable pub numeric_facet_json : Facet → Entries
unfolding ranges_json
numeric_facet_json f = ranges_json (codes "numeric_ranges") f

add_range : Entries → Facet → Facet
add_range range f = record f { ranges = f.ranges ++ array range ∷ [] }

-- One end of a date range; `none` is an exception. php_format_date is a parameter.
add_date : (ℕ → Bytes) → Bytes → Zval → Entries → Option Entries
unfolding add_assoc
add_date format_date name null range = some range
add_date format_date name (string text) range = some (add_assoc name (string text) range)
add_date format_date name (long n) range = some (add_assoc name (string (format_date n)) range)
add_date format_date name _ range = none

add_end : (ℕ → Bytes) → Zval → Option Entries → Option Entries
unfolding add_date
add_end format_date z none = none
add_end format_date z (some range) = add_date format_date (codes "end") z range

keep_range : Option Entries → Facet → Facet × Bool
unfolding add_range
keep_range none f = (f, false)
keep_range (some range) f = (add_range range f, true)

-- DateRangeSearchFacet::addRange
unfoldable pub add_date_range : (ℕ → Bytes) → Bytes → Zval → Zval → Facet → Facet × Bool
unfolding keep_range add_end add_date
add_date_range format_date name start finish f =
    let named = add_assoc (codes "name") (string name) end in
    keep_range (add_end format_date finish (add_date format_date (codes "start") start named)) f

-- One end of a numeric range, which may be null.
add_number : Bytes → Option ℕ → Entries → Entries
unfolding add_assoc
add_number name none range = range
add_number name (some d) range = add_assoc name (double d) range

-- NumericRangeSearchFacet::addRange
unfoldable pub add_numeric_range : Bytes → Option ℕ → Option ℕ → Facet → Facet
unfolding add_range add_number
add_numeric_range name low high f =
    let named = add_assoc (codes "name") (string name) end in
    add_range (add_number (codes "max") high (add_number (codes "min") low named)) f
