-- ===== src/Bucket/Store.antt =====
-- src/couchbase/bucket/store.c: insert, upsert, replace, append and prepend.
pub mod Commands
pub mod Given
pub mod Cas
use php_couchbase.Base.{
  ℕ, zero, suc, Bool, true, false, not, List, [], ◌∷◌, Option, none, some, Bytes, codes, ◌==◌, ◌&&◌,
  ◌||◌, if◌then◌else◌,
}
use php_couchbase.Zval.{Zval}
use php_couchbase.Transcoding.{Encoded, encode_value}
use php_couchbase.Params.{PpState}
use php_couchbase.Lcb.{
  Env, Operation, op_add, op_set, op_replace, op_append, op_prepend, StoreCmd, Command, store,
  storedur,
}
use php_couchbase.Bucket.Options.{check_long, check_string, lval_or, hashkey_of, cas_of, u32, byte}
use php_couchbase.Bucket.Results.{store_callback, proc_store_results}
use php_couchbase.Bucket.Schedule.{Round, send, reject, stop, crash, Ending, arg, run}

-- lcb_storedur3 if a durability requirement is set, lcb_store3 if not.
pub dispatch : StoreCmd → Command
dispatch cmd =
    if not (cmd.persist_to == 0) || not (cmd.replicate_to == 0) then storedur cmd else store cmd

-- The command with its value; the other fields of the structure are cleared.
abbrev encoded_cmd : Operation → Bytes → Encoded → StoreCmd
encoded_cmd op key e = record {
  operation = op;
  key = key;
  value = e.bytes;
  flags = e.flags;
  datatype = e.datatype;
  exptime = 0;
  cas = 0;
  hashkey = none;
  persist_to = 0;
  replicate_to = 0;
}

module _ (env : Env) where
  -- pcbc_encode_value of the value, then the rest of the round. A value that was not passed is a
  -- NULL pointer, which the call of the encoder follows.
  with_encoded : Option Zval → (Encoded → Round) → Round
  with_encoded none go = crash
  with_encoded (some z) go = elim (encode_value env z) [ none ↦ stop env.lcb_error | some e ↦ go e ]

  -- The commands of insert and upsert: arguments value, expiry, flags, groupid, persist_to and
  -- replicate_to.
  put_cmd : Operation → PpState → Encoded → StoreCmd
  put_cmd op s e = record (encoded_cmd op s.id e) {
    exptime = lval_or u32 (arg s 1) 0;
    flags = lval_or u32 (arg s 2) e.flags;
    hashkey = hashkey_of (arg s 3);
    persist_to = lval_or byte (arg s 4) 0;
    replicate_to = lval_or byte (arg s 5) 0;
  }

  -- One round of insert. It does not check persist_to and replicate_to: to take a long from
  -- another value is undefined.
  unfoldable pub insert_round : PpState → Round
  unfolding with_encoded put_cmd dispatch
  insert_round s =
      if check_long (arg s 1) && check_long (arg s 2) && check_string (arg s 3)
      then with_encoded (arg s 0) (λ e.
        if check_long (arg s 4) && check_long (arg s 5)
        then send (dispatch (put_cmd op_add s e))
        else crash)
      else reject

  -- One round of upsert.
  unfoldable pub upsert_round : PpState → Round
  unfolding with_encoded put_cmd dispatch
  upsert_round s =
      if check_long (arg s 1)
        && check_long (arg s 2)
        && check_string (arg s 3)
        && check_long (arg s 4)
        && check_long (arg s 5)
      then with_encoded (arg s 0) (λ e. send (dispatch (put_cmd op_set s e)))
      else reject

  -- The command of replace: arguments value, cas, expiry, flags, groupid, persist_to and
  -- replicate_to.
  pub replace_cmd : PpState → Encoded → StoreCmd
  replace_cmd s e = record (encoded_cmd op_replace s.id e) {
    cas = cas_of (arg s 1);
    exptime = lval_or u32 (arg s 2) 0;
    flags = lval_or u32 (arg s 3) e.flags;
    hashkey = hashkey_of (arg s 4);
    persist_to = lval_or byte (arg s 5) 0;
    replicate_to = lval_or byte (arg s 6) 0;
  }

  -- One round of replace.
  unfoldable pub replace_round : PpState → Round
  unfolding with_encoded replace_cmd dispatch
  replace_round s =
      if check_string (arg s 1)
        && check_long (arg s 2)
        && check_long (arg s 3)
        && check_string (arg s 4)
        && check_long (arg s 5)
        && check_long (arg s 6)
      then with_encoded (arg s 0) (λ e. send (dispatch (replace_cmd s e)))
      else reject

  -- The commands of append and prepend: arguments value, cas, groupid, persist_to and
  -- replicate_to. The flags are cleared.
  pub concat_cmd : Operation → PpState → Encoded → StoreCmd
  concat_cmd op s e = record (encoded_cmd op s.id e) {
    cas = cas_of (arg s 1);
    hashkey = hashkey_of (arg s 2);
    persist_to = lval_or byte (arg s 3) 0;
    replicate_to = lval_or byte (arg s 4) 0;
    flags = 0;
  }

  concat_round : Operation → PpState → Round
  unfolding with_encoded concat_cmd dispatch
  concat_round op s =
      if check_string (arg s 1)
        && check_string (arg s 2)
        && check_long (arg s 3)
        && check_long (arg s 4)
      then with_encoded (arg s 0) (λ e. send (dispatch (concat_cmd op s e)))
      else reject

  -- One round of append.
  unfoldable pub append_round : PpState → Round
  unfolding concat_round
  append_round = concat_round op_append

  -- One round of prepend.
  unfoldable pub prepend_round : PpState → Round
  unfolding concat_round
  prepend_round = concat_round op_prepend

  abbrev put_spec : Bytes
  put_spec = codes "id|value|expiry,flags,groupid,persist_to,replicate_to"

  abbrev replace_spec : Bytes
  replace_spec = codes "id|value|cas,expiry,flags,groupid,persist_to,replicate_to"

  abbrev concat_spec : Bytes
  concat_spec = codes "id|value|cas,groupid,persist_to,replicate_to"

  -- The methods. Only prepend gives `err` an initial value.
  unfoldable pub insert : List Zval → Ending
  unfolding insert_round
  insert = run env put_spec none insert_round store_callback (proc_store_results env)

  unfoldable pub upsert : List Zval → Ending
  unfolding upsert_round
  upsert = run env put_spec none upsert_round store_callback (proc_store_results env)

  unfoldable pub replace : List Zval → Ending
  unfolding replace_round
  replace = run env replace_spec none replace_round store_callback (proc_store_results env)

  unfoldable pub append : List Zval → Ending
  unfolding append_round
  append = run env concat_spec none append_round store_callback (proc_store_results env)

  unfoldable pub prepend : List Zval → Ending
  unfolding prepend_round
  prepend = run env concat_spec (some 0) prepend_round store_callback (proc_store_results env)
