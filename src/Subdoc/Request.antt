-- ===== src/Subdoc/Request.antt =====
-- src/couchbase/bucket/subdoc.c: a request and its results, as the fragments of
-- src/couchbase/document_fragment.c.
pub mod Single
use php_couchbase.Base.{
  ℕ, zero, suc, ◌+◌, Bool, true, false, List, [], ◌∷◌, ◌++◌, Option, none, some, Bytes, codes,
  length, ltb, ◌==◌, ◌||◌, if◌then◌else◌,
}
use php_couchbase.Zval.{Zval, Entries, Key, str, num, null, long, array, end, entry}
use php_couchbase.MutationToken
use php_couchbase.MutationToken.{Mt, MutationToken}
use php_couchbase.OpCookie
use php_couchbase.OpCookie.{OpCookie, push, results, lcb_success}
use php_couchbase.Document.{cas_encode}
use php_couchbase.Subdoc.{SdSpec, SubdocCmd, SdEntry, SdResponse, SubdocEnv}
use php_couchbase.Subdoc.LookupIn.{LookupInBuilder}
use php_couchbase.Subdoc.MutateIn.{MutateInBuilder}

-- A document fragment; a property that was not set is `none`.
pub record Fragment : Type 0 where
  pub error : Option ℕ
  pub value : Option Zval
  pub cas : Option Zval
  pub token : Option MutationToken

-- opcookie_subdoc_res
pub record SubdocRes : Type 0 where
  pub value : Entries
  pub cas : Option Zval
  pub token : Option MutationToken

-- add_index_zval
abbrev pub add_index : ℕ → Zval → Entries → Entries
add_index i z end = entry (num i) z end
add_index i z (entry (num j) v es) =
    let rest = add_index i z es in if j == i then entry (num j) z es else entry (num j) v rest
add_index i z (entry (str k) v es) = entry (str k) v (add_index i z es)

-- pcbc_document_fragment_init and pcbc_document_fragment_init_error
unfoldable pub fragment_init : Option Zval → Option Zval → Option MutationToken → Fragment
fragment_init value cas token = record { error = none; value = value; cas = cas; token = token }

unfoldable pub fragment_init_error : ℕ → Option Zval → Fragment
fragment_init_error err value = record { error = some err; value = value; cas = none; token = none }

module _ (env : SubdocEnv) where
  json_or_null : Option Zval → Zval
  json_or_null none = null
  json_or_null (some z) = z

  -- What one entry of a response becomes.
  unfoldable pub entry_value : SdEntry → Zval
  unfolding json_or_null
  entry_value cur = array (
      entry (str (codes "value"))
        (if ltb 0 (length cur.value) then json_or_null (env.json_decode cur.value) else null)
        (entry (str (codes "code")) (long cur.status) end))

  -- The `while` loop of subdoc_callback; a mutation has the index of its specification.
  unfoldable pub entry_values : Bool → ℕ → List SdEntry → Entries → Entries
  unfolding entry_value
  entry_values is_lookup oix [] value = value
  entry_values is_lookup oix (cur ∷ rest) value =
      entry_values is_lookup (oix + 1) rest
        (add_index (if is_lookup then oix else cur.index) (entry_value cur) value)

  pub token_of : Option Mt → Option MutationToken
  token_of none = none
  token_of (some mt) = some (MutationToken.init env.lcb.bucketname mt)

  -- subdoc_callback
  unfoldable pub subdoc_callback : Bool → OpCookie SubdocRes → SdResponse → OpCookie SubdocRes
  unfolding entry_values token_of
  subdoc_callback is_lookup cookie rb = push cookie rb.rc (record {
    value = entry_values is_lookup 0 rb.entries end;
    cas =
        if rb.rc == lcb_success || rb.rc == env.multi_failure
        then some (cas_encode rb.cas)
        else none;
    token = token_of rb.mutation_token;
  })

  unfoldable pub deliver_subdoc : Bool → OpCookie SubdocRes → List SdResponse → OpCookie SubdocRes
  unfolding subdoc_callback
  deliver_subdoc is_lookup cookie [] = cookie
  deliver_subdoc is_lookup cookie (rb ∷ rest) =
      deliver_subdoc is_lookup (subdoc_callback is_lookup cookie rb) rest

  -- The document fragment of one result.
  unfoldable pub fragment_of : ℕ → SubdocRes → Fragment
  fragment_of err res =
      if err == lcb_success
      then fragment_init (some (array res.value)) res.cas res.token
      else fragment_init_error err
          (if err == env.multi_failure then some (array res.value) else none)

  -- The loop of proc_subdoc_results: the last result makes the return value.
  unfoldable pub last_fragment : List (ℕ × SubdocRes) → Option Fragment → Option Fragment
  unfolding fragment_of
  last_fragment [] ret = ret
  last_fragment ((err, res) ∷ rest) ret = last_fragment rest (some (fragment_of err res))

  -- proc_subdoc_results, which never gives an error.
  unfoldable pub proc_subdoc_results : OpCookie SubdocRes → Option Fragment
  unfolding last_fragment
  proc_subdoc_results cookie = last_fragment (results cookie) none

-- What a request leaves: nothing (the return value is as it was), an exception, or a fragment.
pub data Reply : Type 0 where
  no_reply : Reply
  thrown : ℕ → Reply
  fragment : Fragment → Reply

-- COPY_SPEC: no command is made of a builder without a specification.
unfoldable pub lookup_cmd : LookupInBuilder → Option SubdocCmd
lookup_cmd b =
    if b.nspecs == 0 then none else some (record { key = b.id; cas = 0; specs = b.specs })

unfoldable pub mutate_cmd : MutateInBuilder → Option SubdocCmd
mutate_cmd b =
    if b.nspecs == 0 then none else some (record { key = b.id; cas = b.cas; specs = b.specs })

-- The commands that lcb_subdoc3 was given so far, and a result.
abbrev pub Sent {ℓ} : Type ℓ → Type ℓ
Sent A = List SubdocCmd × A

module _ (env : SubdocEnv) where
  reply_of : Option Fragment → Reply
  reply_of none = no_reply
  reply_of (some f) = fragment f

  -- pcbc_bucket_subdoc_request; `sent` are the commands before it.
  unfoldable pub subdoc_request : Bool → List SubdocCmd → Option SubdocCmd → Sent Reply
  unfolding reply_of
  subdoc_request is_lookup sent none = (sent, no_reply)
  subdoc_request is_lookup sent (some cmd) = (
    sent ++ cmd ∷ [],
    if env.submit sent cmd == lcb_success
        then reply_of (
            proc_subdoc_results env
              (deliver_subdoc env is_lookup OpCookie.init (env.responses sent cmd)))
        else thrown (env.submit sent cmd),
  )
