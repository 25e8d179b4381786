-- ===== src/Bucket/Store/Commands.antt =====
-- store.c: the commands that the store operations build.
use php_couchbase.Base.{
  ℕ, ◌≡◌, ◌≢◌, refl, ap, Bool, true, false, not, ◌||◌, inl, inr, ◌⊎◌, Option, none, some, arith,
  Bytes, ◌==◌, if◌then◌else◌, Bool-cases, Option-cases,
}
use php_couchbase.Zval.{Zval}
use php_couchbase.Params.{PpState}
use php_couchbase.Transcoding.{Encoded, encode_value}
use php_couchbase.Lcb.{
  Env, Operation, op_add, op_set, op_replace, op_append, op_prepend, StoreCmd, Command, store,
  storedur, command_key,
}
use php_couchbase.Bucket.Schedule.{Round, send, reject, stop, crash}
use php_couchbase.Bucket.Schedule.Order.{IsRound}
use php_couchbase.Bucket.Store.{
  dispatch, with_encoded, put_cmd, replace_cmd, concat_cmd, concat_round, insert_round,
  upsert_round, replace_round, append_round, prepend_round,
}

-- What a round of a store operation comes to: a command of the operation `op` for the key, which
-- goes to lcb_storedur3 exactly if it asks for persistence or replication; or one of the ways to
-- send none.
pub data StoreRound (env : Env) (op : Operation) (key : Bytes) : Round → Type 0 where
  plain :
      (c : StoreCmd)
      → c.operation ≡ op
      → c.key ≡ key
      → c.persist_to ≡ 0
      → c.replicate_to ≡ 0
      → StoreRound env op key (send (store c))
  durable :
      (c : StoreCmd)
      → c.operation ≡ op
      → c.key ≡ key
      → (c.persist_to ≢ 0) ⊎ (c.replicate_to ≢ 0)
      → StoreRound env op key (send (storedur c))
  refused : StoreRound env op key reject
  not_encoded : StoreRound env op key (stop env.lcb_error)
  no_value : StoreRound env op key crash

module _ (env : Env) (op : Operation) (key : Bytes) where
  dispatch-StoreRound :
      (c : StoreCmd) → c.operation ≡ op → c.key ≡ key → StoreRound env op key (send (dispatch c))
  unfolding dispatch
  dispatch-StoreRound c o k =
      elim (Bool-cases (not (c.persist_to == 0) || not (c.replicate_to == 0))) [
        | inl asks ↦ rw asks (durable c o k (ground arith))
        | inr unasked ↦ rw unasked (plain c o k (ground arith) (ground arith))
      ]

  with_encoded-StoreRound :
      (z : Option Zval) (go : Encoded → Round)
      → ((e : Encoded) → StoreRound env op key (go e))
      → StoreRound env op key (with_encoded env z go)
  unfolding with_encoded
  with_encoded-StoreRound none go g = no_value
  with_encoded-StoreRound (some z) go g = elim (Option-cases (encode_value env z)) [
    | inl off ↦ rw (off, with_encoded) not_encoded
    | inr (e, on) ↦ rw (on, with_encoded) (g e)
  ]

  if-StoreRound :
      (b : Bool) {x y : Round}
      → StoreRound env op key x
      → StoreRound env op key y
      → StoreRound env op key (if b then x else y)
  if-StoreRound true p q = p
  if-StoreRound false p q = q

module _ (env : Env) (s : PpState) where
  insert-StoreRound : StoreRound env op_add s.id (insert_round env s)
  unfolding insert_round
  insert-StoreRound =
      if-StoreRound env op_add s.id _
        (with_encoded-StoreRound env op_add s.id _ _ (λ e.
          if-StoreRound env op_add s.id _
            (dispatch-StoreRound env op_add s.id (put_cmd env op_add s e) refl refl) no_value))
        refused

  upsert-StoreRound : StoreRound env op_set s.id (upsert_round env s)
  unfolding upsert_round
  upsert-StoreRound =
      if-StoreRound env op_set s.id _
        (with_encoded-StoreRound env op_set s.id _ _
          (λ e. dispatch-StoreRound env op_set s.id (put_cmd env op_set s e) refl refl))
        refused

  replace-StoreRound : StoreRound env op_replace s.id (replace_round env s)
  unfolding replace_round
  replace-StoreRound =
      if-StoreRound env op_replace s.id _
        (with_encoded-StoreRound env op_replace s.id _ _
          (λ e. dispatch-StoreRound env op_replace s.id (replace_cmd env s e) refl refl))
        refused

  concat-StoreRound : (op : Operation) → StoreRound env op s.id (concat_round env op s)
  unfolding concat_round
  concat-StoreRound op =
      if-StoreRound env op s.id _
        (with_encoded-StoreRound env op s.id _ _
          (λ e. dispatch-StoreRound env op s.id (concat_cmd env op s e) refl refl))
        refused

  -- One round of each of the five store operations sends a command of its operation for the id,
  -- by lcb_storedur3 exactly if the command asks for persistence or replication; or it is refused,
  -- or stops with LCB_ERROR, or has no value to read.
  pub store_rounds :
      StoreRound env op_add s.id (insert_round env s)
      × StoreRound env op_set s.id (upsert_round env s)
      × StoreRound env op_replace s.id (replace_round env s)
      × StoreRound env op_append s.id (append_round env s)
      × StoreRound env op_prepend s.id (prepend_round env s)
  unfolding append_round prepend_round
  store_rounds = (
    insert-StoreRound,
    upsert-StoreRound,
    replace-StoreRound,
    concat-StoreRound op_append,
    concat-StoreRound op_prepend,
  )

abbrev command_of : Command → Round → Command
command_of d (send c) = c
command_of d _ = d

abbrev error_of : ℕ → Round → ℕ
error_of d (stop e) = e
error_of d _ = d

StoreRound-sends :
    (env : Env) (op : Operation) (key : Bytes) (r : Round) (c : Command)
    → StoreRound env op key r
    → r ≡ send c
    → command_key c ≡ key
StoreRound-sends env op key r c (plain d o k p q) e = cc (ap (command_of c) e)
StoreRound-sends env op key r c (durable d o k p) e = cc (ap (command_of c) e)
StoreRound-sends env op key r c refused e = absurd (cc)
StoreRound-sends env op key r c not_encoded e = absurd (cc)
StoreRound-sends env op key r c no_value e = absurd (cc)

StoreRound-stops :
    (env : Env) (op : Operation) (key : Bytes) (r : Round) (err : ℕ)
    → (env.lcb_error == 0) ≡ false
    → StoreRound env op key r
    → r ≡ stop err
    → (err == 0) ≡ false
StoreRound-stops env op key r err h (plain d o k p q) e = absurd (cc)
StoreRound-stops env op key r err h (durable d o k p) e = absurd (cc)
StoreRound-stops env op key r err h refused e = absurd (cc)
StoreRound-stops env op key r err h not_encoded e = rw (← ap (error_of 0) e) h
StoreRound-stops env op key r err h no_value e = absurd (cc)

-- The rounds of upsert are what the scheduling loop wants, where LCB_ERROR is no success.
pub upsert-IsRound : (env : Env) → (env.lcb_error == 0) ≡ false → IsRound (upsert_round env)
upsert-IsRound env h = record {
  sends = λ s c e. StoreRound-sends env op_set s.id _ c (upsert-StoreRound env s) e;
  stops = λ s err e. StoreRound-stops env op_set s.id _ err h (upsert-StoreRound env s) e;
}
