-- ===== src/Search/DateRange/Flags.antt =====
-- search/date_range_query.c: the flags that a chain of calls leaves.
use php_couchbase.Base.{
  ℕ, ◌≡◌, refl, ap, ◌∙◌, inl, inr, Bool, true, false, List, [], ◌∷◌, Option, none, some, Bytes,
  codes, bytes_eq, Bool-cases,
}
use php_couchbase.Zval.{Zval, Entries, bool, string, double, end}
use php_couchbase.MutationToken.{estrdup}
use php_couchbase.Query.Options.{find_option, find_option-add_assoc}
use php_couchbase.Search.{add_string, add_text, add_boost}
use php_couchbase.Search.DateRange.{
  DateRangeQuery, date_init, date_field, date_parser, date_boost, date_text, set_start, set_end,
  start_or_throw, end_or_throw, add_limit, date_json,
}

-- A call of a method.
pub data DateCall : Type 0 where
  field_call parser_call : Bytes → DateCall
  boost_call : ℕ → DateCall
  start_call end_call : Zval → Bool → DateCall

-- The flag of the last call of `start` or of `end`.
abbrev pub last_flag : List DateCall → Bool → Bool
last_flag [] old = old
last_flag (start_call z b ∷ cs) old = last_flag cs b
last_flag (end_call z b ∷ cs) old = last_flag cs b
last_flag (c ∷ cs) old = last_flag cs old

abbrev pub flag_of : Option Bytes → Bool → Option Zval
flag_of none b = none
flag_of (some text) b = some (bool b)

-- A name that is not sought.
find_option-add_string :
    (key name text : Bytes) (es : Entries)
    → bytes_eq name key ≡ false
    → find_option key (add_string name text es) ≡ find_option key es
unfolding add_string
find_option-add_string key name text es apart =
    rw (find_option-add_assoc key name (string (estrdup text)) es, apart) refl

find_option-add_text :
    (key name : Bytes) (text : Option Bytes) (es : Entries)
    → bytes_eq name key ≡ false
    → find_option key (add_text name text es) ≡ find_option key es
unfolding add_text
find_option-add_text key name none es apart = refl
find_option-add_text key name (some text) es apart = find_option-add_string key name text es apart

find_option-add_boost :
    (key : Bytes) (at_least_zero : ℕ → Bool) (boost : ℕ) (es : Entries)
    → bytes_eq (codes "boost") key ≡ false
    → find_option key (add_boost at_least_zero boost es) ≡ find_option key es
unfolding add_boost
find_option-add_boost key at_least_zero boost es apart = elim (Bool-cases (at_least_zero boost)) [
  | inl e ↦ rw (e, find_option-add_assoc key (codes "boost") (double boost) es, apart) refl
  | inr e ↦ rw (e) refl
]

find_option-add_limit :
    (key name flag : Bytes) (text : Option Bytes) (b : Bool) (es : Entries)
    → bytes_eq name key ≡ false
    → bytes_eq flag key ≡ false
    → find_option key (add_limit name flag text b es) ≡ find_option key es
unfolding add_limit
find_option-add_limit key name flag none b es apart away = refl
find_option-add_limit key name flag (some text) b es apart away =
    rw (find_option-add_assoc key flag (bool b) (add_string name text es), away)
      (find_option-add_string key name text es apart)

find_option-same :
    (name flag : Bytes) (text : Option Bytes) (b : Bool) (es : Entries)
    → bytes_eq flag flag ≡ true
    → find_option flag es ≡ none
    → find_option flag (add_limit name flag text b es) ≡ flag_of text b
unfolding add_limit
find_option-same name flag none b es same absent = absent
find_option-same name flag (some text) b es same absent =
    rw (find_option-add_assoc flag flag (bool b) (add_string name text es), same) refl

module _ (at_least_zero : ℕ → Bool) (q : DateRangeQuery) where
  started : Entries
  unfolding add_limit
  started = add_limit (codes "start") (codes "inclusive_start") q.start q.inclusive_start end

  find_option-tail :
      (key : Bytes)
      → bytes_eq (codes "datetime_parser") key ≡ false
      → bytes_eq (codes "field") key ≡ false
      → bytes_eq (codes "boost") key ≡ false
      → find_option key (date_json at_least_zero q)
        ≡ find_option key
            (add_limit (codes "end") (codes "inclusive_end") q.end q.inclusive_end started)
  unfolding date_json started
  find_option-tail key no_parser no_field no_boost =
      find_option-add_boost key at_least_zero q.boost _ no_boost
      ∙ find_option-add_text key (codes "field") q.field _ no_field
      ∙ find_option-add_text key (codes "datetime_parser") q.date_time_parser _ no_parser

  date_json-start :
      find_option (codes "inclusive_start") (date_json at_least_zero q)
      ≡ flag_of q.start q.inclusive_start
  unfolding started bytes_eq
  date_json-start =
      find_option-tail (codes "inclusive_start") refl refl refl
      ∙ find_option-add_limit (codes "inclusive_start") (codes "end") (codes "inclusive_end") q.end
          q.inclusive_end started refl refl
      ∙ find_option-same (codes "start") (codes "inclusive_start") q.start q.inclusive_start end
          refl refl

  date_json-end :
      find_option (codes "inclusive_end") (date_json at_least_zero q)
      ≡ flag_of q.end q.inclusive_end
  unfolding started bytes_eq
  date_json-end =
      find_option-tail (codes "inclusive_end") refl refl refl
      ∙ find_option-same (codes "end") (codes "inclusive_end") q.end q.inclusive_end started refl (
          find_option-add_limit (codes "inclusive_end") (codes "start") (codes "inclusive_start")
            q.start q.inclusive_start end refl refl)

module _ (format_date : ℕ → Bytes) where
  abbrev pub date_call : DateRangeQuery → DateCall → DateRangeQuery
  date_call q (field_call text) = date_field text q
  date_call q (parser_call text) = date_parser text q
  date_call q (boost_call boost) = date_boost boost q
  date_call q (start_call z b) = (set_start format_date z b q).0
  date_call q (end_call z b) = (set_end format_date z b q).0

  abbrev pub date_calls : DateRangeQuery → List DateCall → DateRangeQuery
  date_calls q [] = q
  date_calls q (c ∷ cs) = date_calls (date_call q c) cs

  start_or_throw-flags :
      (text : Option Bytes) (q : DateRangeQuery)
      → (start_or_throw text q).0.inclusive_start ≡ q.inclusive_start
        × (start_or_throw text q).0.inclusive_end ≡ q.inclusive_end
  unfolding start_or_throw
  start_or_throw-flags none q = (refl, refl)
  start_or_throw-flags (some text) q = (refl, refl)

  end_or_throw-flags :
      (text : Option Bytes) (q : DateRangeQuery)
      → (end_or_throw text q).0.inclusive_start ≡ q.inclusive_start
        × (end_or_throw text q).0.inclusive_end ≡ q.inclusive_end
  unfolding end_or_throw
  end_or_throw-flags none q = (refl, refl)
  end_or_throw-flags (some text) q = (refl, refl)

  date_calls-flags :
      (q : DateRangeQuery) (cs : List DateCall)
      → (date_calls q cs).inclusive_start ≡ q.inclusive_start
        × (date_calls q cs).inclusive_end ≡ last_flag cs q.inclusive_end
  unfolding date_field date_parser date_boost set_start set_end
  date_calls-flags q [] = (refl, refl)
  date_calls-flags q (field_call text ∷ cs) = date_calls-flags (date_field text q) cs
  date_calls-flags q (parser_call text ∷ cs) = date_calls-flags (date_parser text q) cs
  date_calls-flags q (boost_call boost ∷ cs) = date_calls-flags (date_boost boost q) cs
  date_calls-flags q (start_call z b ∷ cs) =
      let (first, second) = date_calls-flags (set_start format_date z b q).0 cs in
      let (same, set) =
        start_or_throw-flags (date_text format_date z) (record q { inclusive_end = b }) in
      (first ∙ same, second ∙ ap (last_flag cs) set)
  date_calls-flags q (end_call z b ∷ cs) =
      let (first, second) = date_calls-flags (set_end format_date z b q).0 cs in
      let (same, set) =
        end_or_throw-flags (date_text format_date z) (record q { inclusive_end = b }) in
      (first ∙ same, second ∙ ap (last_flag cs) set)

  -- However the methods of a date range query are called, jsonSerialize writes inclusive_start as
  -- false wherever the query has a start, and inclusive_end, wherever it has an end, as the flag of
  -- the last call of start or of end: the flag of start is taken for that of end.
  pub date_json-date_calls :
      (at_least_zero : ℕ → Bool) (cs : List DateCall)
      → find_option (codes "inclusive_start") (date_json at_least_zero (date_calls date_init cs))
          ≡ flag_of (date_calls date_init cs).start false
        × find_option (codes "inclusive_end") (date_json at_least_zero (date_calls date_init cs))
          ≡ flag_of (date_calls date_init cs).end (last_flag cs false)
  unfolding date_init
  date_json-date_calls at_least_zero cs =
      let (first, second) = date_calls-flags date_init cs in
      let q = date_calls date_init cs in
      (
        date_json-start at_least_zero q ∙ ap (flag_of q.start) first,
        date_json-end at_least_zero q ∙ ap (flag_of q.end) second,
      )
