-- ===== src/Bucket/Store/Cas.antt =====
-- base36.c and store.c: the CAS of a document, given back to an operation.
use php_couchbase.Base.{ℕ, ◌<◌, ◌≡◌, refl, true, List, [], ◌∷◌, none, some, Bytes, map}
use php_couchbase.Base36.{u64_mod}
use php_couchbase.Base36.RoundTrip.{decode_str-encode_str}
use php_couchbase.Zval.{Zval, Entries, string, array, defined}
use php_couchbase.Document.{cas_encode, cas_decode}
use php_couchbase.Params.{StateArg, PpState, next, keycount, is_mapped}
use php_couchbase.Transcoding.{Encoded, encode_value}
use php_couchbase.Lcb.{Env, Operation, op_replace, op_append, op_prepend, Command, store}
use php_couchbase.Bucket.Options.{check_string}
use php_couchbase.Bucket.Schedule.{Round, send}
use php_couchbase.Bucket.Schedule.Once.{IsOnce, sent_once, run-once}
use php_couchbase.Bucket.Store.{
  with_encoded, replace_round, concat_round, append_round, prepend_round, replace, append, prepend,
}
use php_couchbase.Bucket.Store.Given.{
  HasCas, cas_state, replace_args, concat_args, replace-begin, concat-begin,
}

-- pcbc_cas_decode undoes pcbc_cas_encode on the 64-bit numbers.
pub cas_decode-cas_encode : (cas : ℕ) → cas < u64_mod → cas_decode (cas_encode cas) ≡ cas
unfolding cas_decode cas_encode
cas_decode-cas_encode cas h = decode_str-encode_str cas h

-- The text that a document carries as its CAS passes the check of the `cas` option.
pub check_string-cas_encode : (cas : ℕ) → check_string (some (cas_encode cas)) ≡ true
unfolding cas_encode
check_string-cas_encode cas = refl

defined-cas_encode : (cas : ℕ) → defined (cas_encode cas) ≡ some (cas_encode cas)
unfolding cas_encode
defined-cas_encode cas = refl

-- The command on the document `id`, with a value, its flags and a CAS.
abbrev pub cas_store : Operation → Bytes → Encoded → ℕ → ℕ → Command
cas_store op id e flags cas = store (record {
  operation = op;
  key = id;
  value = e.bytes;
  flags = flags;
  datatype = e.datatype;
  exptime = 0;
  cas = cas;
  hashkey = none;
  persist_to = 0;
  replicate_to = 0;
})

-- Every variable with the value of its argument.
abbrev based : List StateArg → List StateArg
based = map {B = StateArg} (λ a. record a { out = defined a.val })

-- The state in which the loop builds its command.
abbrev taken_state : Bytes → List StateArg → ℕ → PpState
taken_state id args named = record (cas_state id (based args) named) { id = id; cur_idx = 1 }

module _ (env : Env) (id : Bytes) (value : Zval) (e : Encoded) (cas : ℕ) (small : cas < u64_mod)
    (passed : defined value ≡ some value) (encoded : encode_value env value ≡ some e) where
  replace-sends :
      replace_round env (taken_state id (replace_args value cas) 6)
      ≡ send (cas_store op_replace id e e.flags cas)
  unfolding replace_round
  replace-sends =
      rw (defined-cas_encode cas, check_string-cas_encode cas, passed)
        (rw (encoded, with_encoded) (rw (cas_decode-cas_encode cas small) refl))

  concat-sends :
      (op : Operation)
      → concat_round env op (taken_state id (concat_args value cas) 4)
        ≡ send (cas_store op id e 0 cas)
  unfolding concat_round
  concat-sends op =
      rw (defined-cas_encode cas, check_string-cas_encode cas, passed)
        (rw (encoded, with_encoded) (rw (cas_decode-cas_encode cas small) refl))

  -- The loop over one id.
  once :
      (build : PpState → Round) (args : List StateArg) (n : ℕ) (c : Command)
      → build (taken_state id args n) ≡ send c
      → IsOnce env build (cas_state id args n) c
  unfolding keycount is_mapped next
  once build args n c sends = record {
    taken = taken_state id args n;
    over = record (taken_state id args n) { args = based (taken_state id args n).args };
    one = refl;
    single = refl;
    takes = refl;
    sends = sends;
    ends = refl;
  }

  -- Bucket::replace, append and prepend of one id, with a value that the transcoder encodes and with the
  -- text that a document carries as its CAS, of 64 bits, as the only option, send one command with that
  -- CAS and the encoded value. They throw the code of a command that libcouchbase refuses, or that of
  -- the first response that failed, and return else the document of the last response.
  pub replace-sent_once :
      (es : Entries)
      → HasCas env es cas
      → (replace env (string id ∷ value ∷ array es ∷ [])
          ≡ sent_once env (cas_store op_replace id e e.flags cas))
        × (append env (string id ∷ value ∷ array es ∷ [])
            ≡ sent_once env (cas_store op_append id e 0 cas))
        × (prepend env (string id ∷ value ∷ array es ∷ [])
            ≡ sent_once env (cas_store op_prepend id e 0 cas))
  unfolding replace append prepend append_round prepend_round
  replace-sent_once es h = (
    run-once env _ _ _ _ _ _ (replace-begin env id value es cas h)
        (once (replace_round env) (replace_args value cas) 6 _ replace-sends),
    run-once env _ _ _ _ _ _ (concat-begin env id value es cas h)
        (once (append_round env) (concat_args value cas) 4 _ (concat-sends op_append)),
    run-once env _ _ _ _ _ _ (concat-begin env id value es cas h)
        (once (prepend_round env) (concat_args value cas) 4 _ (concat-sends op_prepend)),
  )
