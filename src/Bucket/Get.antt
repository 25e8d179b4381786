-- ===== src/Bucket/Get.antt =====
-- src/couchbase/bucket/get.c: get, getAndLock, getAndTouch and getFromReplica.
pub mod Locks
use php_couchbase.Base.{
  ℕ, zero, suc, Bool, true, false, List, [], ◌∷◌, Option, none, some, Bytes, codes, ◌%◌, ◌^◌, ◌&&◌,
  ltb, if◌then◌else◌,
}
use php_couchbase.Zval.{Zval, long}
use php_couchbase.Params.{PpState}
use php_couchbase.Lcb.{
  Env, GetCmd, ReplicaCmd, Strategy, replica_first, replica_select, Command, get, rget,
}
use php_couchbase.Bucket.Options.{check_long, check_string, lval_or, hashkey_of, u32}
use php_couchbase.Bucket.Results.{get_callback, proc_get_results}
use php_couchbase.Bucket.Schedule.{Round, send, reject, Ending, arg, run}

-- `cmd.lock` and `cmd.exptime`: an expiry wins over a lock time.
pub set_times : Option Zval → Option Zval → GetCmd → GetCmd
set_times lock (some z) cmd = record cmd { lock = 0; exptime = lval_or u32 (some z) 0 }
set_times (some z) none cmd = record cmd { lock = 1; exptime = lval_or u32 (some z) 0 }
set_times none none cmd = cmd

-- One round of the loop of pcbc_bucket_get. A `lock` or `expiry` that the method does not pass is
-- the same as one that was not given.
pub get_round : Option Zval → Option Zval → Option Zval → Bytes → Round
unfolding set_times
get_round lock expiry groupid id =
    if check_long lock && check_long expiry && check_string groupid
    then send (
        get (
          set_times lock expiry
            (record { key = id; lock = 0; exptime = 0; hashkey = hashkey_of groupid })))
    else reject

-- `cmd.index` is a C int: the sign is the highest of its 32 bits.
set_index : Option Zval → ReplicaCmd → ReplicaCmd
set_index (some (long n)) cmd = record cmd {
  index = n % u32;
  strategy = if ltb (n % u32) (2 ^ 31) then replica_select else replica_first;
}
set_index _ cmd = cmd

-- One round of getFromReplica.
pub replica_round : PpState → Round
unfolding set_index
replica_round s =
    if check_long (arg s 0) && check_string (arg s 1)
    then send (
        rget (
          set_index (arg s 0) (record {
            key = s.id;
            index = 0;
            strategy = replica_first;
            hashkey = hashkey_of (arg s 1);
          })))
    else reject

module _ (env : Env) where
  -- pcbc_bucket_get, with the method's choice of the three values.
  bucket_get : Bytes → (PpState → Round) → List Zval → Ending
  bucket_get spec round = run env spec (some 0) round get_callback (proc_get_results env)

  unfoldable pub get_method : List Zval → Ending
  unfolding bucket_get get_round
  get_method =
      bucket_get (codes "id||lockTime,expiry,groupid")
        (λ s. get_round (arg s 0) (arg s 1) (arg s 2) s.id)

  unfoldable pub get_and_lock : List Zval → Ending
  unfolding bucket_get get_round
  get_and_lock =
      bucket_get (codes "id,lockTime||groupid") (λ s. get_round (arg s 0) none (arg s 1) s.id)

  unfoldable pub get_and_touch : List Zval → Ending
  unfolding bucket_get get_round
  get_and_touch =
      bucket_get (codes "id,expiry||groupid") (λ s. get_round none (arg s 0) (arg s 1) s.id)

  unfoldable pub get_from_replica : List Zval → Ending
  unfolding replica_round
  get_from_replica =
      run env (codes "id||index,groupid") (some 0) replica_round get_callback (proc_get_results env)
