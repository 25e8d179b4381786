-- ===== src/Rows/Dispatch/Encoded.antt =====
-- bucket.c and view_query.c: the command that Bucket::query makes of a query of a view.
use std.Path.{fun_ext}
use php_couchbase.Base.{
  ◌≡◌, refl, ap, ◌∙◌, Bool, true, false, Option, none, some, Bytes, codes, ◌||◌,
}
use php_couchbase.MutationToken.{estrdup}
use php_couchbase.Zval.{Entries, string, array}
use php_couchbase.Query.{QueryEnv}
use php_couchbase.Query.Options.{find_option}
use php_couchbase.Query.View.{ViewQuery, encode_view}
use php_couchbase.Query.View.Encode.{text_value, unless_empty, encode_view-HasTexts}
use php_couchbase.Rows.{RowEnv}
use php_couchbase.Rows.Views.{view_request}
use php_couchbase.Rows.Dispatch.{
  QueryCalls, ViewCommand, view_command, sent, encodable, returned, with_options, bucket_query,
  query_object, query_encoded, query_view, send_view,
}

-- php_array_fetch_string finds the texts of an array and no text under a key that is not there.
pub record Fetches (env : RowEnv) : Type 0 where
  pub finds :
      (es : Entries) (key text : Bytes)
      → find_option key es ≡ some (string text)
      → env.fetch_string es key ≡ some text
  pub misses :
      (es : Entries) (key : Bytes) → find_option key es ≡ none → env.fetch_string es key ≡ none

fetched :
    (env : RowEnv) (es : Entries) (key : Bytes) (text : Option Bytes)
    → Fetches env
    → find_option key es ≡ text_value text
    → env.fetch_string es key ≡ text
fetched env es key none f e = f.misses es key e
fetched env es key (some text) f e = f.finds es key text e

-- The command of a query, with the options as they are encoded.
abbrev pub command_of : QueryCalls → Entries → ViewQuery → Option Bytes → ViewCommand
command_of calls es q options = record {
  include_docs = calls.fetch_bool es (codes "include_docs");
  ddoc = estrdup q.design_document;
  view = estrdup q.view_name;
  optstr = unless_empty options;
  postdata = q.keys;
}

-- The environment whose rows are decoded into arrays, if that is asked for.
abbrev pub array_rows : Bool → RowEnv → RowEnv
array_rows true env = record env { json_decode = λ as_array text. env.json_decode true text }
array_rows false env = env

either_true : (b : Bool) → (b || true) ≡ true
either_true true = refl
either_true false = refl

either_false : (b : Bool) → (b || false) ≡ b
either_false true = refl
either_false false = refl

with_options-array_rows :
    (jsonassoc : Bool) (env : RowEnv) → with_options jsonassoc env ≡ array_rows jsonassoc env
unfolding with_options
with_options-array_rows true env =
    ap (λ (f : Bool → Bool). record env { json_decode = λ a text. env.json_decode (f a) text })
      (fun_ext either_true)
with_options-array_rows false env =
    ap (λ (f : Bool → Bool). record env { json_decode = λ a text. env.json_decode (f a) text })
      (fun_ext either_false)

bucket_query-with_options :
    (calls : QueryCalls) (env : RowEnv) (qenv : QueryEnv) (q : ViewQuery) (jsonassoc : Bool)
    → Fetches env
    → let cmd =
        view_command (command_of calls (encode_view qenv q) q (qenv.url_encode q.options)) in
      bucket_query calls env (encodable (returned (array (encode_view qenv q)))) jsonassoc
      ≡ sent cmd (
          view_request
            (with_options jsonassoc env)
            true
            (calls.submit cmd)
            (calls.view_responses cmd))
unfolding bucket_query with_options query_object query_encoded query_view send_view
bucket_query-with_options calls env qenv q jsonassoc f =
    let texts = encode_view-HasTexts qenv q in
    let es = encode_view qenv q in
    rw
      (
        fetched env es (codes "ddoc") (some (estrdup q.design_document)) f texts.ddoc,
        fetched env es (codes "view") (some (estrdup q.view_name)) f texts.view,
        fetched env es (codes "optstr") (unless_empty (qenv.url_encode q.options)) f texts.optstr,
        fetched env es (codes "postdata") q.keys f texts.postdata,
      )
      refl

-- Bucket::query sends for a ViewQuery a command with its design document and its view, as C strings, the
-- encoded options unless they are empty, and the keys in the body, and ends as the request of that
-- command does, where the rows are decoded into arrays if that was asked for. php_array_fetch_string
-- finds the texts of an array, and none under a key that is not there.
pub bucket_query-encode_view :
    (calls : QueryCalls) (env : RowEnv) (qenv : QueryEnv) (q : ViewQuery) (jsonassoc : Bool)
    → Fetches env
    → let cmd =
        view_command (command_of calls (encode_view qenv q) q (qenv.url_encode q.options)) in
      bucket_query calls env (encodable (returned (array (encode_view qenv q)))) jsonassoc
      ≡ sent cmd (
          view_request
            (array_rows jsonassoc env)
            true
            (calls.submit cmd)
            (calls.view_responses cmd))
bucket_query-encode_view calls env qenv q jsonassoc f =
    let cmd = view_command (command_of calls (encode_view qenv q) q (qenv.url_encode q.options)) in
    bucket_query-with_options calls env qenv q jsonassoc f
    ∙ ap (λ e. sent cmd (view_request e true (calls.submit cmd) (calls.view_responses cmd)))
        (with_options-array_rows jsonassoc env)
