-- ===== src/Examples/Queries.antt =====
-- The queries, the scan vectors and Bucket::durability.
use php_couchbase.Base.{
  ℕ, ◌≡◌, ◌^◌, ◌-◌, refl, Bool, true, false, not, [], ◌∷◌, List, none, some, Bytes, codes, bytes_eq,
  ◌==◌,
}
use php_couchbase.Decimal.{decimal}
use php_couchbase.Zval.{Zval, bool, string, long, str, num, array, object, end, entry}
use php_couchbase.Params.{PpState, ok, begin, keycount}
use php_couchbase.MutationToken.{MutationToken, estrdup}
use php_couchbase.MutationState.{MutationState}
use php_couchbase.MutationState.Vectors.{find_vector, export_for_n1ql, find_vector-export_for_n1ql}
use php_couchbase.Bucket.Durability.{durability_method}
use php_couchbase.Bucket.Durability.Bounds.{Within, commands_for, ending_of, durability-Within}
use php_couchbase.Query.{QueryEnv, stale_of, add_assoc}
use php_couchbase.Query.Options.{find_option}
use php_couchbase.Query.View.{init}
use php_couchbase.Query.View.Calls.{
  ViewCall, limit_call, custom_call, range_call, consistency_call, view_calls,
  find_option-view_calls,
}
use php_couchbase.Search.DateRange.{date_init, date_json, date_text, date_boost, set_start, set_end}
use php_couchbase.Search.DateRange.Flags.{
  DateCall, start_call, end_call, boost_call, date_calls, date_json-date_calls,
}
use php_couchbase.Search.{add_string, add_int}
use php_couchbase.Search.Request.{
  SearchQuery, construct, search_limit, search_fields, search_timeout, search_json,
}
use php_couchbase.Search.Compound.{compound_init, conjunction_init, disjunction_init}
use php_couchbase.Search.Compound.Parts.{
  must_call, list_call, list_boost_call, conjunction_calls, disjunction_calls, boolean_calls,
  compound-parts,
}
use php_couchbase.Search.Factories.{match_all_call, part_json, made}
use php_couchbase.Search.Factories.Made.{class_of, match_none_class, part_json-made}
use php_couchbase.Examples.Operations.{sample, fetch, state_or, no_state}

abbrev query_env : QueryEnv
query_env = record {
  json_encode = λ z. some (codes "1");
  url_encode = λ es. some (codes "limit=1");
  implode = λ es. [];
}

abbrev some_calls : List ViewCall
some_calls =
    limit_call 10
    ∷ range_call (long 1) (long 2) true
    ∷ custom_call (entry (str (codes "limit")) (long 3) end)
    ∷ consistency_call 7
    ∷ []

find_option-view_calls_example :
    find_option
      (codes "limit")
      (view_calls query_env (init (codes "d") (codes "v")) some_calls).options
    ≡ some (long 3)
unfolding bytes_eq stale_of
find_option-view_calls_example =
    find_option-view_calls query_env (codes "limit") (codes "d") (codes "v") some_calls

abbrev token : ℕ → ℕ → MutationToken
token seq vb = record { bucket = codes "b"; mt = record { id = 7; seq = seq; vb = vb } }

abbrev three_tokens : MutationState
three_tokens = record { ntokens = 3; tokens = token 5 1 ∷ token 6 2 ∷ token 4 1 ∷ [] }

find_vector-export_for_n1ql_example :
    find_vector (codes "b") (codes "1") (export_for_n1ql three_tokens) ≡ some (4, codes "7")
unfolding bytes_eq decimal estrdup
find_vector-export_for_n1ql_example =
    find_vector-export_for_n1ql (codes "b") (codes "1") three_tokens

abbrev one_param : List Zval
one_param = string (codes "a") ∷ []

abbrev durability_spec : Bytes
durability_spec = codes "id||cas,groupid,persist_to,replicate_to"

abbrev durability_state : PpState
durability_state = state_or no_state (begin fetch one_param durability_spec)

durability_begins : begin fetch one_param durability_spec ≡ ok durability_state
unfolding begin bytes_eq
durability_begins = refl

durability-Within_example :
    Within (keycount durability_state) (commands_for sample durability_state)
    × (durability_method sample (λ cmds opts. 0) one_param
        ≡ ending_of sample (λ cmds opts. 0) (commands_for sample durability_state))
durability-Within_example =
    durability-Within sample (λ cmds opts. 0) one_param durability_state durability_begins

abbrev date_texts : ℕ → Bytes
date_texts n = codes "1970-01-01T00:00:00+00:00"

-- The end excludes its limit, and the start that follows includes its own.
abbrev excluded_end : List DateCall
excluded_end = boost_call 0 ∷ end_call (string (codes "b")) false ∷ start_call (long 0) true ∷ []

date_json-date_calls_example :
    find_option
        (codes "inclusive_start")
        (date_json (λ d. d == 0) (date_calls date_texts date_init excluded_end))
      ≡ some (bool false)
    × find_option
        (codes "inclusive_end")
        (date_json (λ d. d == 0) (date_calls date_texts date_init excluded_end))
      ≡ some (bool true)
unfolding date_init date_text date_boost set_start set_end
date_json-date_calls_example = date_json-date_calls date_texts (λ d. d == 0) excluded_end

-- A limit of five, and a negative timeout, which is left out with its control object.
abbrev request : SearchQuery
request = search_timeout (2 ^ 64 - 3) (
    search_fields (string (codes "a") ∷ long 1 ∷ [])
      (search_limit 5 (construct (codes "i") (object 1))))

request_json :
    search_json request
    ≡ entry (str (codes "indexName")) (string (codes "i")) (
        entry (str (codes "size")) (long 5) (
          entry
            (str (codes "fields"))
            (array (entry (num 0) (string (codes "a")) end))
            (entry (str (codes "query")) (object 1) end)))
unfolding search_json construct search_limit search_fields search_timeout add_assoc add_string
    add_int estrdup bytes_eq
request_json = refl

-- The object 9 is no part of a query.
abbrev is_part : ℕ → Bool
is_part o = not (o == 9)

compound-parts_example :
    (conjunction_calls is_part
        (conjunction_init is_part (object 1 ∷ object 9 ∷ []))
        (list_boost_call 2 ∷ list_call (long 3 ∷ object 4 ∷ []) ∷ [])).queries
      ≡ object 1 ∷ object 4 ∷ []
    × (disjunction_calls is_part
        (disjunction_init is_part (object 1 ∷ object 9 ∷ []))
        (list_boost_call 2 ∷ list_call (long 3 ∷ object 4 ∷ []) ∷ [])).queries
      ≡ object 1 ∷ object 4 ∷ []
    × (boolean_calls is_part compound_init
        (must_call (object 1 ∷ []) ∷ must_call (object 2 ∷ object 9 ∷ []) ∷ [])).must
      ≡ some (object 2 ∷ [])
compound-parts_example =
    compound-parts is_part (object 1 ∷ object 9 ∷ [])
      (list_boost_call 2 ∷ list_call (long 3 ∷ object 4 ∷ []) ∷ [])
      (must_call (object 1 ∷ []) ∷ must_call (object 2 ∷ object 9 ∷ []) ∷ [])

-- No double is at least zero.
abbrev negative : ℕ → Bool
negative d = false

part_json-made_example :
    (class_of (made is_part match_all_call) ≡ match_none_class)
    × (find_option (codes "boost") (part_json negative (made is_part match_all_call)) ≡ none)
part_json-made_example = part_json-made is_part negative match_all_call refl
