-- ===== src/Query/Spatial.antt =====
-- src/couchbase/spatial_view_query.c. The methods give their query as those of View do.
use php_couchbase.Base.{ℕ, Bool, true, false, Option, none, some, Bytes, codes}
use php_couchbase.Zval.{Zval, Entries, string, array, long, end}
use php_couchbase.Query.{QueryEnv, add_assoc, add_json, stale_of, add_custom, encoded_query}

-- pcbc_spatial_view_query_t
pub record SpatialViewQuery : Type 0 where
  pub design_document : Bytes
  pub view_name : Bytes
  pub include_docs : Bool
  pub options : Entries

-- pcbc_spatial_view_query_init, which is also SpatialViewQuery::from and ViewQuery::fromSpatial.
unfoldable pub spatial_init : Bytes → Bytes → SpatialViewQuery
spatial_init design_document view_name = record {
  design_document = design_document;
  view_name = view_name;
  include_docs = false;
  options = end;
}

spatial_option : Bytes → Zval → SpatialViewQuery → SpatialViewQuery
spatial_option name z q = record q { options = add_assoc name z q.options }

-- The methods.
unfoldable pub spatial_limit : ℕ → SpatialViewQuery → SpatialViewQuery
unfolding spatial_option
spatial_limit n q = spatial_option (codes "limit") (long n) q

unfoldable pub spatial_skip : ℕ → SpatialViewQuery → SpatialViewQuery
unfolding spatial_option
spatial_skip n q = spatial_option (codes "skip") (long n) q

spatial_stale : Option Bytes → SpatialViewQuery → SpatialViewQuery × Bool
unfolding spatial_option
spatial_stale none q = (q, false)
spatial_stale (some text) q = (spatial_option (codes "stale") (string text) q, true)

unfoldable pub spatial_consistency : ℕ → SpatialViewQuery → SpatialViewQuery × Bool
unfolding spatial_stale
spatial_consistency n q = spatial_stale (stale_of n) q

unfoldable pub spatial_include_documents : Bool → SpatialViewQuery → SpatialViewQuery
spatial_include_documents b q = record q { include_docs = b }

unfoldable pub spatial_custom : Entries → SpatialViewQuery → SpatialViewQuery
spatial_custom es q = record q { options = add_custom es q.options }

module _ (env : QueryEnv) where
  unfoldable pub bbox : Entries → SpatialViewQuery → SpatialViewQuery
  unfolding spatial_option
  bbox es q = spatial_option (codes "bbox") (string (env.implode es)) q

  unfoldable pub start_range : Entries → SpatialViewQuery → SpatialViewQuery
  start_range es q = record q {
    options = add_json (codes "start_range") (env.json_encode (array es)) q.options;
  }

  unfoldable pub end_range : Entries → SpatialViewQuery → SpatialViewQuery
  end_range es q = record q {
    options = add_json (codes "end_range") (env.json_encode (array es)) q.options;
  }

  unfoldable pub encode_spatial : SpatialViewQuery → Entries
  encode_spatial q = encoded_query env q.design_document q.view_name q.options
