-- ===== src/Http/Replies.antt =====
-- http.c: what a request replies, by the responses.
use php_couchbase.Base.{
  ℕ, ◌≡◌, refl, inl, inr, Bool, true, false, List, [], ◌∷◌, ◌++◌, Option, none, some, Bytes, map,
  ◌==◌, if◌then◌else◌, Bool-cases,
}
use php_couchbase.Zval.{Zval, null, string}
use php_couchbase.OpCookie.{lcb_success}
use php_couchbase.OpCookie.Chain.{first_failure}
use php_couchbase.OpCookie.Delivered.{results-deliver, get_first_error-deliver}
use php_couchbase.Http.{
  CmdHttp, RespHttp, HttpEnv, lcb, Reply, or_null, body_value, http_result, first_value,
  proc_http_results, reply_of, http_request,
}

-- A decoded body, null if it is no JSON.
abbrev decoded : Option Zval → Zval
decoded none = null
decoded (some z) = z

-- There is more than one response.
abbrev pub is_many : List RespHttp → Bool
is_many [] = false
is_many (r ∷ []) = false
is_many (r ∷ s ∷ rs) = true

-- The code of the first response that failed, in the order in which they came.
abbrev pub first_rc : List RespHttp → ℕ
first_rc [] = lcb_success
first_rc (r ∷ rs) = if r.rc == lcb_success then first_rc rs else r.rc

module _ (env : HttpEnv) (json_response : Bool) where
  -- What a body stands for: null if it is empty, what it decodes to if JSON was asked for, and else a
  -- string.
  abbrev pub value_of : Bytes → Zval
  value_of [] = null
  value_of (c ∷ s) = if json_response then decoded (env.json_decode (c ∷ s)) else string (c ∷ s)

  -- The value of the first response.
  abbrev pub first_of : List RespHttp → Option Zval
  first_of [] = none
  first_of (r ∷ rs) = some (value_of r.body)

  -- What a request that was accepted replies to its responses.
  abbrev pub http_reply : List CmdHttp → List RespHttp → Reply
  http_reply sent rs =
      if first_rc rs == lcb_success
      then record {
        sent = sent;
        thrown = if is_many rs then lcb env.lcb_error ∷ [] else [];
        ret = first_of rs;
      }
      else record { sent = sent; thrown = lcb (first_rc rs) ∷ []; ret = none }

  or_null-decoded : (o : Option Zval) → or_null o ≡ decoded o
  unfolding or_null
  or_null-decoded none = refl
  or_null-decoded (some z) = refl

  body_value-value_of : (body : Bytes) → body_value env json_response body ≡ value_of body
  unfolding body_value
  body_value-value_of [] = refl
  body_value-value_of (c ∷ s) = rw (or_null-decoded (env.json_decode (c ∷ s))) refl

  first_failure-first_rc :
      (rs : List RespHttp) → first_failure (map (http_result env json_response) rs) ≡ first_rc rs
  unfolding http_result
  first_failure-first_rc [] = refl
  first_failure-first_rc (r ∷ rs) = rw (first_failure-first_rc rs) refl

  first_value-reply :
      (sent : List CmdHttp) (rs : List RespHttp)
      → (env.lcb_error == lcb_success) ≡ false
      → reply_of env sent (first_value env (map (http_result env json_response) rs)) ≡ record {
        sent = sent;
        thrown = if is_many rs then lcb env.lcb_error ∷ [] else [];
        ret = first_of rs;
      }
  unfolding reply_of first_value http_result
  first_value-reply sent [] h = refl
  first_value-reply sent (r ∷ []) h = rw (body_value-value_of r.body) refl
  first_value-reply sent (r ∷ s ∷ rs) h = rw (h, body_value-value_of r.body) refl

  failed-reply :
      (sent : List CmdHttp) (err : ℕ)
      → (err == lcb_success) ≡ false
      → reply_of env sent (err, none) ≡ record { sent = sent; thrown = lcb err ∷ []; ret = none }
  unfolding reply_of
  failed-reply sent err h = rw h refl

  -- A request that libcouchbase accepts throws the code of the first response that failed, and gives
  -- then no value; if none failed it gives the value of the first response's body, if there is one,
  -- and throws LCB_ERROR exactly if there is a second response. An empty body is null, another is a
  -- string, or what it decodes to if JSON was asked for. A request that is refused throws its code.
  -- LCB_ERROR is not the code of success.
  pub http_request-http_reply :
      (sent : List CmdHttp) (cmd : CmdHttp)
      → (env.lcb_error == lcb_success) ≡ false
      → http_request env sent cmd json_response ≡ (
          if env.submit sent cmd == lcb_success
          then http_reply (sent ++ cmd ∷ []) (env.responses sent cmd)
          else record {
            sent = sent ++ cmd ∷ [];
            thrown = lcb (env.submit sent cmd) ∷ [];
            ret = none;
          })
  unfolding http_request proc_http_results
  http_request-http_reply sent cmd h = elim (Bool-cases (env.submit sent cmd == lcb_success)) [
    | inr refused ↦ rw refused (failed-reply (sent ++ cmd ∷ []) (env.submit sent cmd) refused)
    | inl accepted ↦
        let rs = env.responses sent cmd in
        rw
          (
            accepted,
            get_first_error-deliver (http_result env json_response) rs,
            results-deliver (http_result env json_response) rs,
            first_failure-first_rc rs,
          )
          (elim (Bool-cases (first_rc rs == lcb_success)) [
            | inl fine ↦ rw fine (first_value-reply (sent ++ cmd ∷ []) rs h)
            | inr failed ↦ rw failed (failed-reply (sent ++ cmd ∷ []) (first_rc rs) failed)
          ])
  ]
