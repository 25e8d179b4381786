-- ===== src/Bucket/Get/Locks.antt =====
-- get.c: the lock and the expiry of get commands, and the choice of a replica.
use php_couchbase.Base.{
  ℕ, ◌%◌, ◌^◌, ◌≡◌, refl, true, ◌&&◌, Option, none, some, arith, Bytes, if◌then◌else◌, ltb,
}
use php_couchbase.Zval.{Zval, long}
use php_couchbase.Params.{PpState}
use php_couchbase.Lcb.{replica_first, replica_select, get, rget}
use php_couchbase.Bucket.Options.{check_long, check_string, hashkey_of}
use php_couchbase.Bucket.Schedule.{send, reject, arg}
use php_couchbase.Bucket.Get.{get_round, set_times, replica_round, set_index}

-- The lock flag and the expiration time that a get command is meant to have.
abbrev pub times : Option Zval → Option Zval → ℕ × ℕ
times lock (some (long e)) = (0, e % 2 ^ 32)
times (some (long l)) none = (1, l % 2 ^ 32)
times _ _ = (0, 0)

-- A round of the get operations is refused unless the lock time and the expiry are integers and
-- the group id a string, each if given. Otherwise it sends one command for the id, which has the
-- expiry if there is one, else the lock time with the lock flag, in 32 bits.
pub get_round-times :
    (lock expiry groupid : Option Zval) (id : Bytes)
    → get_round lock expiry groupid id ≡ (
        if check_long lock && check_long expiry && check_string groupid
        then send (
            get (record {
              key = id;
              lock = (times lock expiry).0;
              exptime = (times lock expiry).1;
              hashkey = hashkey_of groupid;
            }))
        else reject)
unfolding get_round set_times
get_round-times lock expiry groupid id = ground arith

-- A given index is sent as a 32-bit integer, and selects that replica exactly if it is not
-- negative; otherwise, and with no index, the first replica to answer is read.
pub replica_round-index :
    (s : PpState) (n : ℕ)
    → arg s 0 ≡ some (long n)
    → check_string (arg s 1) ≡ true
    → replica_round s
      ≡ send (
          rget (record {
            key = s.id;
            index = n % 2 ^ 32;
            strategy = if ltb (n % 2 ^ 32) (2 ^ 31) then replica_select else replica_first;
            hashkey = hashkey_of (arg s 1);
          }))
unfolding replica_round set_index
replica_round-index s n a g = rw (a, g) refl
