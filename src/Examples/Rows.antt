-- ===== src/Examples/Rows.antt =====
-- The rows of queries.
use php_couchbase.Base.{
  ◌≡◌, refl, ap, Bool, true, false, List, [], ◌∷◌, Option, none, some, Bytes, codes, ◌==◌,
  if◌then◌else◌,
}
use php_couchbase.Zval.{str, null, string, array, end, entry}
use php_couchbase.OpCookie
use php_couchbase.OpCookie.{get_first_error, push, results}
use php_couchbase.OpCookie.Delivered.{deliver}
use php_couchbase.Rows.{RowEnv, QueryResult, result}
use php_couchbase.Rows.N1ql.{RespN1ql, n1ql_request, patched, row_value}
use php_couchbase.Rows.Views.{RespView, view_request}
use php_couchbase.Query.{QueryEnv}
use php_couchbase.Query.Options.{find_option}
use php_couchbase.Query.View.{ViewQuery, encode_view}
use php_couchbase.MutationToken.{estrdup}
use php_couchbase.Zval.{Zval}
use php_couchbase.Rows.Dispatch.{
  QueryCalls, Command, view_command, sent, encodable, returned, bucket_query,
}
use php_couchbase.Rows.Dispatch.Encoded.{Fetches, array_rows, bucket_query-encode_view}
use php_couchbase.Rows.Served.{n1ql_request-result}

-- A text in braces is an empty array, and any other is no JSON.
abbrev row_env : RowEnv
row_env = record {
  json_decode =
      λ as_array s. elim s [ [] ↦ none | c ∷ rest ↦ if c == b'{' then some (array end) else none ];
  fetch = λ es key. none;
  fetch_long = λ es key. 0;
  fetch_double = λ es key. 0;
  fetch_string = λ es key. none;
  lcb_esockshutdown = 41;
  lcb_network_error = 16;
}

abbrev row : Bool → Bytes → RespN1ql
row is_final text = record { rc = 0; is_final = is_final; row = text; status = 200 }

abbrev two_rows : List RespN1ql
two_rows = row false (codes "a") ∷ row false (codes "b") ∷ row true (codes "{}") ∷ []

abbrev answer : QueryResult
answer = record { rows = string (codes "a") ∷ string (codes "b") ∷ []; properties = end }

n1ql_request-result_example :
    (q : QueryResult) × (n1ql_request row_env true false 0 two_rows ≡ result q)
unfolding row_value patched
n1ql_request-result_example =
    n1ql_request-result row_env true false two_rows (refl, (refl, (refl, tt)))

abbrev view_rows : List RespView
view_rows =
    record {
      rc = 0;
      is_final = false;
      doc_id = codes "d";
      key = codes "k";
      value = [];
      error_body = [];
    }
    ∷ record { rc = 0; is_final = true; doc_id = []; key = []; value = codes "{}"; error_body = [] }
    ∷ []

abbrev view_answer : QueryResult
view_answer = record {
  rows =
      array (
        entry (str (codes "id")) (string (codes "d"))
          (entry (str (codes "key")) (string (codes "k")) (entry (str (codes "value")) null end)))
      ∷ [];
  properties = end;
}

runs_view : view_request row_env true 0 view_rows ≡ result view_answer
unfolding view_request get_first_error deliver push OpCookie.init results
runs_view = refl

-- An engine that finds the texts of an array.
abbrev text_in : Option Zval → Option Bytes
text_in (some (string s)) = some s
text_in _ = none

abbrev fetching : RowEnv
fetching = record row_env { fetch_string = λ es key. text_in (find_option key es) }

fetching-Fetches : Fetches fetching
fetching-Fetches = record {
  finds = λ es key text e. ap text_in e;
  misses = λ es key e. ap text_in e;
}

abbrev query_calls : QueryCalls
query_calls = record {
  json_encode = λ z. some (codes "{}");
  fetch_bool = λ es key. false;
  submit = λ cmd. 0;
  row_responses = λ cmd. two_rows;
  view_responses = λ cmd. view_rows;
}

abbrev encoding : QueryEnv
encoding = record {
  json_encode = λ z. none;
  url_encode = λ es. some (codes "limit=1");
  implode = λ es. [];
}

abbrev view_query : ViewQuery
view_query = record {
  design_document = codes "d";
  view_name = codes "v";
  keys = some (codes "k");
  include_docs = false;
  options = end;
}

abbrev view_cmd : Command
view_cmd = view_command (record {
  include_docs = false;
  ddoc = codes "d";
  view = codes "v";
  optstr = some (codes "limit=1");
  postdata = some (codes "k");
})

bucket_query-encode_view_example :
    bucket_query query_calls fetching
      (encodable (returned (array (encode_view encoding view_query))))
      true
    ≡ sent view_cmd (view_request (array_rows true fetching) true 0 view_rows)
unfolding estrdup
bucket_query-encode_view_example =
    bucket_query-encode_view query_calls fetching encoding view_query true fetching-Fetches
