-- ===== src/Bucket/Empty.antt =====
-- Calls of the bucket operations that reach undefined behaviour, whatever libcouchbase answers.
use php_couchbase.Base.{
  ℕ, ◌<◌, ◌≡◌, refl, Bool, true, List, [], ◌∷◌, Option, arith, Bytes, bytes_eq, length, ltb,
}
use php_couchbase.Zval.{Zval, num, array, string, long, end, entry}
use php_couchbase.Params.{PpState, fault, begin, next, keycount, is_mapped}
use php_couchbase.OpCookie.{OpCookie}
use php_couchbase.Lcb.{Env}
use php_couchbase.Bucket.Results.{Return, null, KeyRes, Callback}
use php_couchbase.Bucket.Schedule.{Round, unspecified, returned, run}
use php_couchbase.Bucket.Store.{insert, upsert, replace, append, prepend}
use php_couchbase.Bucket.Get.{get_method, get_from_replica}
use php_couchbase.Bucket.Other.{counter_method, remove_method, unlock_method, touch_method}

module _ (env : Env) where
  -- On an empty array of ids insert, upsert, replace, append, remove, unlock and touch test an error
  -- code that nothing has set; prepend, counter, get and getFromReplica, which set it first, return
  -- null.
  pub empty_ids :
      (v : Zval) (n : ℕ)
      → ((insert env (array end ∷ v ∷ []) ≡ unspecified)
          × (upsert env (array end ∷ v ∷ []) ≡ unspecified)
          × (replace env (array end ∷ v ∷ []) ≡ unspecified)
          × (append env (array end ∷ v ∷ []) ≡ unspecified)
          × (remove_method env (array end ∷ []) ≡ unspecified)
          × (unlock_method env (array end ∷ []) ≡ unspecified)
          × (touch_method env (array end ∷ long n ∷ []) ≡ unspecified))
        × ((prepend env (array end ∷ v ∷ []) ≡ returned null)
            × (counter_method env (array end ∷ []) ≡ returned null)
            × (get_method env (array end ∷ []) ≡ returned null)
            × (get_from_replica env (array end ∷ []) ≡ returned null))
  unfolding insert upsert replace append prepend remove_method unlock_method touch_method
      counter_method get_method get_from_replica run begin next keycount is_mapped bytes_eq
  empty_ids v n = ((refl, refl, refl, refl, refl, refl, refl), (refl, refl, refl, refl))

  -- touch with an id and no expiry follows a NULL pointer; and an operation takes a string from a
  -- value that is none, if the first value of the array of ids is a number under an integer key.
  pub missing_expiry_or_id :
      (id : Bytes) (i n : ℕ) (v : Zval)
      → (touch_method env (string id ∷ []) ≡ unspecified)
        × (get_method env (array (entry (num i) (long n) end) ∷ []) ≡ unspecified)
        × (remove_method env (array (entry (num i) (long n) end) ∷ []) ≡ unspecified)
        × (upsert env (array (entry (num i) (long n) end) ∷ v ∷ []) ≡ unspecified)
  unfolding touch_method get_method remove_method upsert run begin next keycount is_mapped bytes_eq
  missing_expiry_or_id id i n v = (refl, refl, refl, refl)

begin-overflow :
    (env : Env) (params : List Zval) (spec : Bytes)
    → 10 < length params
    → begin env.fetch params spec ≡ fault
unfolding begin
begin-overflow env params spec h = let e : ltb 10 (length params) ≡ true = ground arith in rw e refl

-- A call of any operation with more than ten arguments writes past the array that pcbc_pp_begin
-- reads them into.
pub run-overflow {ℓ} :
    {A : Type ℓ} (env : Env) (spec : Bytes) (err : Option ℕ) (build : PpState → Round)
    (callback : Callback A) (proc : OpCookie (KeyRes A) → Bool → ℕ × Return) (params : List Zval)
    → 10 < length params
    → run env spec err build callback proc params ≡ unspecified
unfolding run
run-overflow env spec err build callback proc params h =
    rw (begin-overflow env params spec h, run) refl
