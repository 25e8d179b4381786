-- ===== src/Bucket/Schedule.antt =====
-- The part that the operations of src/couchbase/bucket/*.c share: pcbc_pp_begin, the loop over the
-- ids, which schedules a command for each, and what follows lcb_wait. An operation gives its
-- specification, the initial value of its `err` variable (`none`: it has none), the command that
-- one round builds, its callback and its `proc` function.
pub mod Loop
pub mod One
pub mod Order
pub mod Outcomes
pub mod Once
use php_couchbase.Base.{
  ℕ, zero, suc, ◌+◌, Bool, true, false, List, [], ◌∷◌, ◌++◌, Option, none, some, Bytes, ◌==◌,
  if◌then◌else◌, get_elem?, length,
}
use php_couchbase.Zval.{Zval}
use php_couchbase.OpCookie.{OpCookie, lcb_success}
use php_couchbase.OpCookie
use php_couchbase.Params.{
  PpState, StateArg, ok, failure, fault, begin, next, Step, item, done, stray, keycount, is_mapped,
}
use php_couchbase.Params
use php_couchbase.Lcb.{Env, Command, Response}
use php_couchbase.Bucket.Results.{Return, null, KeyRes, Callback, deliver}

-- What one round comes to: a command for libcouchbase, a failed PCBC_CHECK_ZVAL (an exception with
-- LCB_EINVAL and a return from the method), an error code before `break`, or the use of an
-- undefined value.
pub data Round : Type 0 where
  send : Command → Round
  reject : Round
  stop : ℕ → Round
  crash : Round

-- `nscheduled`, `err` and the commands that libcouchbase has accepted.
pub record Progress : Type 0 where
  pub nscheduled : ℕ
  pub err : Option ℕ
  pub accepted : List Command

-- How the loop ends. `exhausted` is no result of the program: the loop ran out of fuel.
pub data Scheduled : Type 0 where
  finished : Progress → Scheduled
  rejected undefined exhausted : Scheduled

-- How a method ends: with its return value, with an exception of this code, or in undefined
-- behaviour.
pub data Ending : Type 0 where
  returned : Return → Ending
  thrown : ℕ → Ending
  unspecified stuck : Ending

-- The value behind the pointer of the i-th argument after the id.
abbrev pub arg : PpState → ℕ → Option Zval
arg s i = elim (get_elem? s.args i) [ none ↦ none | some a ↦ a.out ]

module _ (env : Env) (build : PpState → Round) where
  -- The rest of a round, after lcb_store3 or its like has returned `err`.
  after_submit : (Progress → Scheduled) → Command → ℕ → Progress → Scheduled
  after_submit continue c err p =
      let go = continue (record {
        nscheduled = p.nscheduled + 1;
        err = some err;
        accepted = p.accepted ++ c ∷ [];
      }) in
      if err == lcb_success then go else finished (record p { err = some err })

  round : (Progress → Scheduled) → Round → Progress → Scheduled
  unfolding after_submit
  round continue (send c) p = after_submit continue c (env.submit p.accepted c) p
  round continue reject p = rejected
  round continue (stop err) p = finished (record p { err = some err })
  round continue crash p = undefined

  step : (PpState → Progress → Scheduled) → Step → Progress → Scheduled
  unfolding round
  step continue (item s) p = round (continue s) (build s) p
  step continue (done s) p = finished p
  step continue stray p = undefined

  -- The `for` loop, on fuel.
  unfoldable pub schedule : ℕ → PpState → Progress → Scheduled
  unfolding step
  schedule zero s p = exhausted
  schedule (suc fuel) s p = step (schedule fuel) (next env.fetch s) p

-- The test of `err` at the end of each method.
unfoldable pub finish : Option ℕ → Return → Ending
finish none ret = unspecified
finish (some err) ret = if err == lcb_success then returned ret else thrown err

-- What follows the loop; a scheduled command makes `proc` overwrite `err`.
unfoldable pub conclude {ℓ} :
    {A : Type ℓ}
    → Env
    → Callback A
    → (OpCookie (KeyRes A) → Bool → ℕ × Return)
    → Bool
    → Progress
    → Ending
unfolding finish
conclude env callback proc mapped p =
    let (err, ret) = proc (deliver callback OpCookie.init (env.wait p.accepted)) mapped in
    if p.nscheduled == 0 then finish p.err null else finish (some err) ret

unfoldable pub after_loop {ℓ} :
    {A : Type ℓ}
    → Env
    → Callback A
    → (OpCookie (KeyRes A) → Bool → ℕ × Return)
    → Bool
    → Scheduled
    → Ending
unfolding conclude
after_loop env callback proc mapped (finished p) = conclude env callback proc mapped p
after_loop env callback proc mapped rejected = thrown env.lcb_einval
after_loop env callback proc mapped undefined = unspecified
after_loop env callback proc mapped exhausted = stuck

-- The state before the loop.
abbrev pub idle : Option ℕ → Progress
idle err = record { nscheduled = 0; err = err; accepted = [] }

-- The loop and what follows, from the state that pcbc_pp_begin leaves.
unfoldable pub run_state {ℓ} :
    {A : Type ℓ}
    → Env
    → Option ℕ
    → (PpState → Round)
    → Callback A
    → (OpCookie (KeyRes A) → Bool → ℕ × Return)
    → PpState
    → Ending
unfolding schedule after_loop
run_state env err build callback proc s =
    after_loop env callback proc (is_mapped s) (schedule env build (suc (keycount s)) s (idle err))

-- A method with the specification `spec`, on the arguments `params`.
unfoldable pub run {ℓ} :
    {A : Type ℓ}
    → Env
    → Bytes
    → Option ℕ
    → (PpState → Round)
    → Callback A
    → (OpCookie (KeyRes A) → Bool → ℕ × Return)
    → List Zval
    → Ending
unfolding run_state
run env spec err build callback proc params = elim (begin env.fetch params spec) [
  | ok s ↦ run_state env err build callback proc s
  | failure ↦ thrown env.lcb_einval
  | fault ↦ unspecified
]
