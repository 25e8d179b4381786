-- ===== src/Http.antt =====
-- src/couchbase/bucket/http.c: a request over HTTP and its reply. The body that libcouchbase gets of a
-- command is in the command.
pub mod Replies
use php_couchbase.Base.{
  ℕ, Bool, true, false, List, [], ◌∷◌, ◌++◌, Option, none, some, Bytes, codes, ◌==◌, if◌then◌else◌,
}
use php_couchbase.Zval.{Zval, Entries, null, string}
use php_couchbase.OpCookie
use php_couchbase.OpCookie.{OpCookie, results, get_first_error, lcb_success}
use php_couchbase.OpCookie.Delivered.{deliver}

-- lcb_http_type_t and lcb_http_method_t
pub data HttpType : Type 0 where
  view_type management_type n1ql_type : HttpType

pub data HttpMethod : Type 0 where
  get post put delete : HttpMethod

-- lcb_CMDHTTP; a text that was not set is `none`.
pub record CmdHttp : Type 0 where
  pub type : HttpType
  pub method : HttpMethod
  pub path : Option Bytes
  pub content_type : Option Bytes
  pub body : Option Bytes

abbrev pub content_type_form : Option Bytes
content_type_form = some (codes "application/x-www-form-urlencoded")

abbrev pub content_type_json : Option Bytes
content_type_json = some (codes "application/json")

-- lcb_RESPHTTP
pub record RespHttp : Type 0 where
  pub rc : ℕ
  pub body : Bytes

-- What the code calls of libcouchbase and of the engine. An answer may depend on the commands before
-- it. `json_decode` makes arrays of objects.
pub record HttpEnv : Type 0 where
  pub submit : List CmdHttp → CmdHttp → ℕ
  pub responses : List CmdHttp → CmdHttp → List RespHttp
  pub json_decode : Bytes → Option Zval
  pub json_encode : Zval → Option Bytes
  pub url_encode : Entries → Option Bytes
  pub array_merge : Entries → Entries → Entries
  pub array_exists : Entries → Bytes → Bool
  pub array_fetch_string : Entries → Bytes → Option Bytes
  pub lcb_error : ℕ
  pub lcb_einval : ℕ
  pub key_eexists : ℕ

-- An exception: a code of libcouchbase, or a message with a code.
pub data Thrown : Type 0 where
  lcb : ℕ → Thrown
  pcbc : Bytes → ℕ → Thrown

-- The commands so far, what was thrown, and the return value, `none` if it was not written.
pub record Reply : Type 0 where
  pub sent : List CmdHttp
  pub thrown : List Thrown
  pub ret : Option Zval

or_null : Option Zval → Zval
or_null none = null
or_null (some z) = z

module _ (env : HttpEnv) where
  body_value : Bool → Bytes → Zval
  unfolding or_null
  body_value json_response [] = null
  body_value json_response (c ∷ s) =
      if json_response then or_null (env.json_decode (c ∷ s)) else string (c ∷ s)

  -- http_callback: the code and the value that it stores.
  unfoldable pub http_result : Bool → RespHttp → ℕ × Zval
  unfolding body_value
  http_result json_response resp = (resp.rc, body_value json_response resp.body)

  -- The loop of proc_http_results: the first value, and an error if there is another.
  first_value : List (ℕ × Zval) → ℕ × Option Zval
  first_value [] = (lcb_success, none)
  first_value ((err, z) ∷ []) = (lcb_success, some z)
  first_value ((err, z) ∷ r ∷ rs) = (env.lcb_error, some z)

  unfoldable pub proc_http_results : OpCookie Zval → ℕ × Option Zval
  unfolding first_value
  proc_http_results cookie =
      if get_first_error cookie == lcb_success
      then first_value (results cookie)
      else (get_first_error cookie, none)

  reply_of : List CmdHttp → ℕ × Option Zval → Reply
  reply_of sent (err, ret) = record {
    sent = sent;
    thrown = if err == lcb_success then [] else lcb err ∷ [];
    ret = ret;
  }

  -- pcbc_http_request
  unfoldable pub http_request : List CmdHttp → CmdHttp → Bool → Reply
  unfolding reply_of proc_http_results http_result
  http_request sent cmd json_response = reply_of (sent ++ cmd ∷ []) (
      if env.submit sent cmd == lcb_success
      then proc_http_results
          (deliver (http_result json_response) OpCookie.init (env.responses sent cmd))
      else (env.submit sent cmd, none))

  text_in : Zval → Option Bytes
  text_in (string s) = some s
  text_in _ = none

  request_type : ℕ → Option HttpType
  request_type n =
      if n == 1
      then some view_type
      else (if n == 2 then some management_type else (if n == 3 then some n1ql_type else none))

  request_method : ℕ → Option HttpMethod
  request_method n =
      if n == 1
      then some get
      else (if n == 2
          then some post
          else (if n == 3 then some put else (if n == 4 then some delete else none)))

  request_content : ℕ → Option Bytes
  request_content n =
      if n == 1 then content_type_json else (if n == 2 then content_type_form else none)

  -- Bucket::http_request, of three longs and two values. One of the longs that is out of range makes it
  -- return null.
  request_with :
      List CmdHttp
      → Option HttpType
      → Option HttpMethod
      → Option Bytes
      → Option Bytes
      → Option Bytes
      → Reply
  unfolding http_request
  request_with sent (some type) (some method) (some content) path body =
      http_request sent
        (record {
          type = type;
          method = method;
          path = path;
          content_type = some content;
          body = body;
        })
        false
  request_with sent type method content path body = record {
    sent = sent;
    thrown = [];
    ret = some null;
  }

  unfoldable pub request_by_number : List CmdHttp → ℕ → ℕ → Zval → Zval → ℕ → Reply
  unfolding request_with request_type request_method request_content text_in
  request_by_number sent type method path body content =
      request_with sent (request_type type) (request_method method) (request_content content)
        (text_in path) (text_in body)
