-- ===== src/Query/N1ql.antt =====
-- src/couchbase/n1ql_query.c, and src/couchbase/analytics_query.c, whose query has options alone. A
-- method that can throw gives `false` with the query when it does.
use php_couchbase.Base.{
  ℕ, Bool, true, false, ◌∷◌, Option, none, some, Bytes, codes, ◌==◌, if◌then◌else◌,
}
use php_couchbase.Zval.{Entries, str, num, undef, string, array, end, entry}
use php_couchbase.MutationToken.{estrdup}
use php_couchbase.MutationState.{MutationState}
use php_couchbase.MutationState.Vectors.{export_for_n1ql, vector_entries}
use php_couchbase.Query.{add_assoc}

-- pcbc_n1ql_query_t, with its property `options`.
pub record N1qlQuery : Type 0 where
  pub adhoc : Bool
  pub cross_bucket : Bool
  pub options : Entries

-- pcbc_n1ql_query_init, which is also N1qlQuery::fromString; the allocation clears `cross_bucket`.
unfoldable pub n1ql_init : Bytes → N1qlQuery
n1ql_init statement = record {
  adhoc = true;
  cross_bucket = false;
  options = entry (str (codes "statement")) (string statement) end;
}

unfoldable pub positional_params : Entries → N1qlQuery → N1qlQuery
positional_params params q = record q {
  options = add_assoc (codes "args") (array params) q.options;
}

-- The loop of `namedParams`; the name is read as a C string.
unfoldable pub add_named : Entries → Entries → Entries
add_named end options = options
add_named (entry k undef es) options = add_named es options
add_named (entry (str k) z es) options = add_named es (add_assoc (b'$' ∷ estrdup k) z options)
add_named (entry (num i) z es) options = add_named es options

unfoldable pub named_params : Entries → N1qlQuery → N1qlQuery
unfolding add_named
named_params params q = record q { options = add_named params q.options }

unfoldable pub set_adhoc : Bool → N1qlQuery → N1qlQuery
set_adhoc b q = record q { adhoc = b }

unfoldable pub set_cross_bucket : Bool → N1qlQuery → N1qlQuery
set_cross_bucket b q = record q { cross_bucket = b }

-- PCBC_N1QL_CONSISTENCY_*
unfoldable pub scan_consistency_of : ℕ → Option Bytes
scan_consistency_of n =
    if n == 1
    then some (codes "not_bounded")
    else (if n == 2
        then some (codes "request_plus")
        else (if n == 3 then some (codes "statement_plus") else none))

scan_consistency : Option Bytes → N1qlQuery → N1qlQuery × Bool
scan_consistency none q = (q, false)
scan_consistency (some text) q =
    (record q { options = add_assoc (codes "scan_consistency") (string text) q.options }, true)

unfoldable pub n1ql_consistency : ℕ → N1qlQuery → N1qlQuery × Bool
unfolding scan_consistency scan_consistency_of
n1ql_consistency n q = scan_consistency (scan_consistency_of n) q

unfoldable pub consistent_with : MutationState → N1qlQuery → N1qlQuery × Bool
unfolding vector_entries export_for_n1ql
consistent_with state q = if state.ntokens == 0 then (q, false) else (
  record q {
    options =
        add_assoc (codes "scan_vectors") (array (vector_entries (export_for_n1ql state)))
          (add_assoc (codes "scan_consistency") (string (codes "at_plus")) q.options);
  },
  true,
)

-- pcbc_analytics_query_t, with its property `options`.
pub record AnalyticsQuery : Type 0 where
  pub hostname : Option Bytes
  pub options : Entries

-- pcbc_analytics_query_init, which is also AnalyticsQuery::fromString.
unfoldable pub analytics_init : Bytes → AnalyticsQuery
analytics_init statement = record {
  hostname = none;
  options = entry (str (codes "statement")) (string statement) end;
}

unfoldable pub set_hostname : Bytes → AnalyticsQuery → AnalyticsQuery
set_hostname hostname q = record q { hostname = some hostname }
