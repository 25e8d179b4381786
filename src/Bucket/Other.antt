-- ===== src/Bucket/Other.antt =====
-- src/couchbase/bucket/counter.c, remove.c, unlock.c and touch.c.
use php_couchbase.Base.{
  Bool, true, false, List, Option, none, some, Bytes, codes, ◌&&◌, if◌then◌else◌,
}
use php_couchbase.Zval.{Zval}
use php_couchbase.Params.{PpState}
use php_couchbase.Lcb.{Env, CasCmd, counter, remove, unlock, touch}
use php_couchbase.Bucket.Options.{check_long, check_string, lval_or, hashkey_of, cas_of, u32, u64}
use php_couchbase.Bucket.Results.{
  counter_callback, remove_callback, touch_callback, unlock_callback, proc_arithmetic_results,
  proc_store_results, proc_unlock_results,
}
use php_couchbase.Bucket.Schedule.{Round, send, reject, crash, Ending, arg, run}

-- `cmd.create`
is_given : Option Zval → Bool
is_given none = false
is_given (some z) = true

-- One round of counter: arguments delta, initial, expiry and groupid. The delta is 1 if none is
-- given; it and the initial value keep all 64 bits.
pub counter_round : PpState → Round
unfolding is_given
counter_round s =
    if check_long (arg s 0)
      && check_long (arg s 1)
      && check_long (arg s 2)
      && check_string (arg s 3)
    then send (
        counter (record {
          key = s.id;
          delta = lval_or u64 (arg s 0) 1;
          initial = lval_or u64 (arg s 1) 0;
          create = is_given (arg s 1);
          exptime = lval_or u32 (arg s 2) 0;
          hashkey = hashkey_of (arg s 3);
        }))
    else reject

-- The command of remove and unlock: arguments cas and groupid.
cas_cmd : PpState → CasCmd
cas_cmd s = record { key = s.id; cas = cas_of (arg s 0); hashkey = hashkey_of (arg s 1) }

-- One round of remove.
pub remove_round : PpState → Round
unfolding cas_cmd
remove_round s =
    if check_string (arg s 0) && check_string (arg s 1) then send (remove (cas_cmd s)) else reject

-- One round of unlock.
pub unlock_round : PpState → Round
unfolding cas_cmd
unlock_round s =
    if check_string (arg s 0) && check_string (arg s 1) then send (unlock (cas_cmd s)) else reject

-- `cmd.exptime = Z_LVAL_P(zexpiry)`, which follows a NULL pointer if no expiry was passed.
touch_cmd : Option Zval → Option Zval → Bytes → Round
touch_cmd none groupid id = crash
touch_cmd (some z) groupid id =
    send
      (touch (record { key = id; exptime = lval_or u32 (some z) 0; hashkey = hashkey_of groupid }))

-- One round of touch: arguments expiry and groupid.
pub touch_round : PpState → Round
unfolding touch_cmd
touch_round s =
    if check_long (arg s 0) && check_string (arg s 1)
    then touch_cmd (arg s 0) (arg s 1) s.id
    else reject

module _ (env : Env) where
  unfoldable pub counter_method : List Zval → Ending
  unfolding counter_round
  counter_method =
      run env (codes "id|delta|initial,expiry,groupid") (some 0) counter_round counter_callback
        (proc_arithmetic_results env)

  unfoldable pub remove_method : List Zval → Ending
  unfolding remove_round
  remove_method =
      run env (codes "id||cas,groupid") none remove_round remove_callback (proc_store_results env)

  unfoldable pub unlock_method : List Zval → Ending
  unfolding unlock_round
  unlock_method =
      run env (codes "id||cas,groupid") none unlock_round unlock_callback (proc_unlock_results env)

  unfoldable pub touch_method : List Zval → Ending
  unfolding touch_round
  touch_method =
      run env (codes "id|expiry|groupid") none touch_round touch_callback (proc_store_results env)
