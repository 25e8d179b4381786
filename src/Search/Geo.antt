-- ===== src/Search/Geo.antt =====
-- src/couchbase/search/geo_distance_query.c and geo_bounding_box_query.c. Doubles are patterns. A method
-- gives the query that it leaves.
use php_couchbase.Base.{ℕ, Bool, [], ◌∷◌, Option, none, some, Bytes, codes}
use php_couchbase.Zval.{Zval, Entries, array, double, string, end}
use php_couchbase.Query.{add_assoc}
use php_couchbase.Search.{minus_one, numbered, add_text, add_boost}

-- An array of a longitude and a latitude.
point : ℕ → ℕ → Zval
unfolding numbered
point longitude latitude = array (numbered 0 (double longitude ∷ double latitude ∷ []))

-- pcbc_geo_distance_search_query_t
pub record GeoDistanceQuery : Type 0 where
  pub boost : ℕ
  pub field : Option Bytes
  pub longitude : ℕ
  pub latitude : ℕ
  pub distance : Bytes

-- pcbc_geo_distance_search_query_init
unfoldable pub distance_init : ℕ → ℕ → Bytes → GeoDistanceQuery
distance_init longitude latitude distance = record {
  boost = minus_one;
  field = none;
  longitude = longitude;
  latitude = latitude;
  distance = distance;
}

unfoldable pub distance_field : Bytes → GeoDistanceQuery → GeoDistanceQuery
distance_field text q = record q { field = some text }

unfoldable pub distance_boost : ℕ → GeoDistanceQuery → GeoDistanceQuery
distance_boost boost q = record q { boost = boost }

unfoldable pub distance_json : (ℕ → Bool) → GeoDistanceQuery → Entries
unfolding add_assoc point
distance_json at_least_zero q =
    let near = add_assoc (codes "distance") (string q.distance) end in
    let located = add_assoc (codes "location") (point q.longitude q.latitude) near in
    add_boost at_least_zero q.boost (add_text (codes "field") q.field located)

-- pcbc_geo_bounding_box_search_query_t
pub record GeoBoundingBoxQuery : Type 0 where
  pub boost : ℕ
  pub field : Option Bytes
  pub top_left_longitude : ℕ
  pub top_left_latitude : ℕ
  pub bottom_right_longitude : ℕ
  pub bottom_right_latitude : ℕ

-- pcbc_geo_bounding_box_search_query_init
unfoldable pub box_init : ℕ → ℕ → ℕ → ℕ → GeoBoundingBoxQuery
box_init top_left_longitude top_left_latitude bottom_right_longitude bottom_right_latitude =
    record {
      boost = minus_one;
      field = none;
      top_left_longitude = top_left_longitude;
      top_left_latitude = top_left_latitude;
      bottom_right_longitude = bottom_right_longitude;
      bottom_right_latitude = bottom_right_latitude;
    }

unfoldable pub box_field : Bytes → GeoBoundingBoxQuery → GeoBoundingBoxQuery
box_field text q = record q { field = some text }

unfoldable pub box_boost : ℕ → GeoBoundingBoxQuery → GeoBoundingBoxQuery
box_boost boost q = record q { boost = boost }

unfoldable pub box_json : (ℕ → Bool) → GeoBoundingBoxQuery → Entries
unfolding add_assoc point
box_json at_least_zero q =
    let left = add_assoc (codes "top_left") (point q.top_left_longitude q.top_left_latitude) end in
    let both =
      add_assoc (codes "bottom_right") (point q.bottom_right_longitude q.bottom_right_latitude)
        left in
    add_boost at_least_zero q.boost (add_text (codes "field") q.field both)
