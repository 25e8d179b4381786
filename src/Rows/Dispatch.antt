-- ===== src/Rows/Dispatch.antt =====
-- src/couchbase/bucket.c: Bucket::query, from a query object to the command that libcouchbase gets and
-- to the object that is given.
pub mod Encoded
use php_couchbase.Base.{ℕ, Bool, true, false, not, ◌||◌, List, Option, none, some, Bytes, codes}
use php_couchbase.Zval.{Zval, Entries, array}
use php_couchbase.Query.N1ql.{N1qlQuery, AnalyticsQuery}
use php_couchbase.Search.Request.{SearchQuery, search_json}
use php_couchbase.Rows.{RowEnv, QueryEnd}
use php_couchbase.Rows.N1ql.{RespN1ql, n1ql_request}
use php_couchbase.Rows.Fts.{cbft_request}
use php_couchbase.Rows.Views.{RespView, view_request}

-- What the method `encode` of a query of a view does: the call fails, it throws, or it gives a value.
pub data EncodeCall : Type 0 where
  failed raised : EncodeCall
  returned : Zval → EncodeCall

-- The query object, by its class.
pub data QueryObject : Type 0 where
  n1ql : N1qlQuery → QueryObject
  search : SearchQuery → QueryObject
  analytics : AnalyticsQuery → QueryObject
  encodable : EncodeCall → QueryObject
  unknown : QueryObject

-- lcb_CMDN1QL, lcb_CMDFTS and lcb_CMDVIEWQUERY
pub record N1qlCommand : Type 0 where
  pub query : Bytes
  pub is_prepared : Bool
  pub is_multi_auth : Bool
  pub is_cbas : Bool
  pub host : Option Bytes

pub record ViewCommand : Type 0 where
  pub include_docs : Bool
  pub ddoc : Bytes
  pub view : Bytes
  pub optstr : Option Bytes
  pub postdata : Option Bytes

pub data Command : Type 0 where
  n1ql_command : N1qlCommand → Command
  fts_command : Bytes → Command
  view_command : ViewCommand → Command

-- What the method calls; `submit` is the code with which libcouchbase takes a command.
pub record QueryCalls : Type 0 where
  pub json_encode : Zval → Option Bytes
  pub fetch_bool : Entries → Bytes → Bool
  pub submit : Command → ℕ
  pub row_responses : Command → List RespN1ql
  pub view_responses : Command → List RespView

-- How the method ends: without a command it returns null, after a message that is thrown if there is
-- one, or after an exception that is pending by then.
pub data Queried : Type 0 where
  not_sent : Queried
  thrown_message : Bytes → Queried
  pending : Queried
  sent : Command → QueryEnd → Queried

-- With `jsonassoc` every row is decoded into arrays.
unfoldable pub with_options : Bool → RowEnv → RowEnv
with_options jsonassoc env = record env {
  json_decode = λ as_array text. env.json_decode (as_array || jsonassoc) text;
}

module _ (calls : QueryCalls) (env : RowEnv) where
  send_n1ql : N1qlCommand → Queried
  send_n1ql cmd = sent (n1ql_command cmd) (
      n1ql_request env true cmd.is_cbas (calls.submit (n1ql_command cmd))
        (calls.row_responses (n1ql_command cmd)))

  query_n1ql : N1qlQuery → Option Bytes → Queried
  unfolding send_n1ql
  query_n1ql q none = not_sent
  query_n1ql q (some text) = send_n1ql (record {
    query = text;
    is_prepared = not q.adhoc;
    is_multi_auth = q.cross_bucket;
    is_cbas = false;
    host = none;
  })

  query_analytics : AnalyticsQuery → Option Bytes → Queried
  unfolding send_n1ql
  query_analytics q none = not_sent
  query_analytics q (some text) = send_n1ql (record {
    query = text;
    is_prepared = false;
    is_multi_auth = false;
    is_cbas = true;
    host = q.hostname;
  })

  query_search : Option Bytes → Queried
  query_search none = not_sent
  query_search (some text) = sent (fts_command text) (
      cbft_request env true (calls.submit (fts_command text))
        (calls.row_responses (fts_command text)))

  send_view : ViewCommand → Queried
  send_view cmd = sent (view_command cmd) (
      view_request env true (calls.submit (view_command cmd))
        (calls.view_responses (view_command cmd)))

  -- The command of an encoded query of a view, which has a design document and a view.
  query_view : Entries → Option Bytes → Option Bytes → Queried
  unfolding send_view
  query_view es (some ddoc) (some view) = send_view (record {
    include_docs = calls.fetch_bool es (codes "include_docs");
    ddoc = ddoc;
    view = view;
    optstr = env.fetch_string es (codes "optstr");
    postdata = env.fetch_string es (codes "postdata");
  })
  query_view es none view = not_sent
  query_view es (some ddoc) none = not_sent

  query_encoded : EncodeCall → Queried
  unfolding query_view
  query_encoded failed = thrown_message (codes "failed to call encode() on view query")
  query_encoded raised = pending
  query_encoded (returned (array es)) =
      query_view es (env.fetch_string es (codes "ddoc")) (env.fetch_string es (codes "view"))
  query_encoded (returned z) = not_sent

  query_object : QueryObject → Queried
  unfolding query_n1ql query_analytics query_search query_encoded
  query_object (n1ql q) = query_n1ql q (calls.json_encode (array q.options))
  query_object (search q) = query_search (calls.json_encode (array (search_json q)))
  query_object (analytics q) = query_analytics q (calls.json_encode (array q.options))
  query_object (encodable call) = query_encoded call
  query_object unknown = thrown_message (codes "Unknown type of Query object")

-- Bucket::query
unfoldable pub bucket_query : QueryCalls → RowEnv → QueryObject → Bool → Queried
unfolding query_object with_options
bucket_query calls env q jsonassoc = query_object calls (with_options jsonassoc env) q
