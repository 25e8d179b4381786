-- ===== src/Search/DateRange.antt =====
-- src/couchbase/search/date_range_query.c. A method gives the query that it leaves; `start` and `end`
-- give `false` with it when they throw. The allocation clears the fields that init leaves out.
pub mod Flags
use php_couchbase.Base.{ℕ, Bool, true, false, Option, none, some, Bytes, codes}
use php_couchbase.Zval.{Zval, Entries, bool, string, long, end}
use php_couchbase.Query.{add_assoc}
use php_couchbase.Search.{minus_one, add_string, add_text, add_boost}

-- pcbc_date_range_search_query_t
pub record DateRangeQuery : Type 0 where
  pub boost : ℕ
  pub field : Option Bytes
  pub start : Option Bytes
  pub end : Option Bytes
  pub date_time_parser : Option Bytes
  pub inclusive_start : Bool
  pub inclusive_end : Bool

-- pcbc_date_range_search_query_init
unfoldable pub date_init : DateRangeQuery
date_init = record {
  boost = minus_one;
  field = none;
  start = none;
  end = none;
  date_time_parser = none;
  inclusive_start = false;
  inclusive_end = false;
}

unfoldable pub date_field : Bytes → DateRangeQuery → DateRangeQuery
date_field text q = record q { field = some text }

unfoldable pub date_parser : Bytes → DateRangeQuery → DateRangeQuery
date_parser text q = record q { date_time_parser = some text }

unfoldable pub date_boost : ℕ → DateRangeQuery → DateRangeQuery
date_boost boost q = record q { boost = boost }

-- The switch on the type of a date; php_format_date is a parameter, on the pattern of a long.
unfoldable pub date_text : (ℕ → Bytes) → Zval → Option Bytes
date_text format_date (string text) = some text
date_text format_date (long n) = some (format_date n)
date_text format_date _ = none

start_or_throw : Option Bytes → DateRangeQuery → DateRangeQuery × Bool
start_or_throw none q = (q, false)
start_or_throw (some text) q = (record q { start = some text }, true)

end_or_throw : Option Bytes → DateRangeQuery → DateRangeQuery × Bool
end_or_throw none q = (q, false)
end_or_throw (some text) q = (record q { end = some text }, true)

-- `start` stores its flag in `inclusive_end`, as `end` does.
unfoldable pub set_start : (ℕ → Bytes) → Zval → Bool → DateRangeQuery → DateRangeQuery × Bool
unfolding start_or_throw
set_start format_date z inclusive q =
    start_or_throw (date_text format_date z) (record q { inclusive_end = inclusive })

unfoldable pub set_end : (ℕ → Bytes) → Zval → Bool → DateRangeQuery → DateRangeQuery × Bool
unfolding end_or_throw
set_end format_date z inclusive q =
    end_or_throw (date_text format_date z) (record q { inclusive_end = inclusive })

add_limit : Bytes → Bytes → Option Bytes → Bool → Entries → Entries
unfolding add_string
add_limit name flag none inclusive es = es
add_limit name flag (some text) inclusive es =
    add_assoc flag (bool inclusive) (add_string name text es)

-- jsonSerialize
unfoldable pub date_json : (ℕ → Bool) → DateRangeQuery → Entries
unfolding add_limit
date_json at_least_zero q =
    let started =
      add_limit (codes "start") (codes "inclusive_start") q.start q.inclusive_start end in
    let ended = add_limit (codes "end") (codes "inclusive_end") q.end q.inclusive_end started in
    let parsed = add_text (codes "datetime_parser") q.date_time_parser ended in
    add_boost at_least_zero q.boost (add_text (codes "field") q.field parsed)
