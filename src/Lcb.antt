-- ===== src/Lcb.antt =====
-- The code that the bucket operations call and that the repository does not hold, as one record of
-- functions: libcouchbase, the engine's array lookups of contrib/php_array.h, and the user's
-- transcoder functions. Its commands and responses carry the fields that the extension writes and
-- reads.
use php_couchbase.Base.{ℕ, Bool, List, Option, Bytes}
use php_couchbase.Zval.{Zval, Entries}
use php_couchbase.MutationToken.{Mt}

-- lcb_storage_t: LCB_ADD and so on.
pub data Operation : Type 0 where
  op_add op_set op_replace op_append op_prepend : Operation

-- lcb_CMDSTOREDUR
pub record StoreCmd : Type 0 where
  pub operation : Operation
  pub key : Bytes
  pub value : Bytes
  pub flags : ℕ
  pub datatype : ℕ
  pub exptime : ℕ
  pub cas : ℕ
  pub hashkey : Option Bytes
  pub persist_to : ℕ
  pub replicate_to : ℕ

-- lcb_CMDGET
pub record GetCmd : Type 0 where
  pub key : Bytes
  pub lock : ℕ
  pub exptime : ℕ
  pub hashkey : Option Bytes

-- lcb_replica_t
pub data Strategy : Type 0 where
  replica_first replica_select : Strategy

-- lcb_CMDGETREPLICA; a cleared `strategy` is LCB_REPLICA_FIRST.
pub record ReplicaCmd : Type 0 where
  pub key : Bytes
  pub index : ℕ
  pub strategy : Strategy
  pub hashkey : Option Bytes

-- lcb_CMDCOUNTER
pub record CounterCmd : Type 0 where
  pub key : Bytes
  pub delta : ℕ
  pub initial : ℕ
  pub create : Bool
  pub exptime : ℕ
  pub hashkey : Option Bytes

-- lcb_CMDREMOVE, lcb_CMDUNLOCK
pub record CasCmd : Type 0 where
  pub key : Bytes
  pub cas : ℕ
  pub hashkey : Option Bytes

-- lcb_CMDTOUCH
pub record TouchCmd : Type 0 where
  pub key : Bytes
  pub exptime : ℕ
  pub hashkey : Option Bytes

-- A call of lcb_store3, lcb_storedur3, lcb_get3 and so on.
pub data Command : Type 0 where
  store storedur : StoreCmd → Command
  get : GetCmd → Command
  rget : ReplicaCmd → Command
  counter : CounterCmd → Command
  remove unlock : CasCmd → Command
  touch : TouchCmd → Command

-- lcb_RESPBASE and the structures that extend it.
pub record Response : Type 0 where
  pub rc : ℕ
  pub key : Bytes
  pub value : Bytes
  pub itmflags : ℕ
  pub datatype : ℕ
  pub cas : ℕ
  pub counter_value : ℕ
  pub mutation_token : Option Mt

-- `stringl` makes a string of the bytes at a place and a length, the 32-bit pattern of an int.
-- `submit` gives the error code for a command after those that were accepted before it, and `wait`
-- the responses that lcb_wait delivers for the accepted commands, in their order of arrival.
pub record Env : Type 0 where
  pub fetch : Entries → Bytes → Option Zval
  pub fetchn : Entries → ℕ → Option Zval
  pub encoder : Zval → Option Zval
  pub stringl : Bytes → ℕ → Bytes
  pub decoder : Bytes → ℕ → ℕ → Zval
  pub bucketname : Bytes
  pub lcb_einval : ℕ
  pub lcb_error : ℕ
  pub token_is_valid : Mt → Bool
  pub submit : List Command → Command → ℕ
  pub wait : List Command → List Response

-- The key that LCB_CMD_SET_KEY stored in a command.
abbrev pub command_key : Command → Bytes
command_key (store c) = c.key
command_key (storedur c) = c.key
command_key (get c) = c.key
command_key (rget c) = c.key
command_key (counter c) = c.key
command_key (remove c) = c.key
command_key (unlock c) = c.key
command_key (touch c) = c.key
