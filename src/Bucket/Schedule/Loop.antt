-- ===== src/Bucket/Schedule/Loop.antt =====
-- The scheduling loop ends: the fuel that `run` gives it is enough.
use php_couchbase.Base.{
  ℕ, zero, suc, ◌<◌, ◌≡◌, ◌≢◌, refl, Bool, true, false, ◌⊎◌, inl, inr, List, Option, none, some,
  arith, Bytes, ◌==◌, if◌then◌else◌, Bool-cases,
}
use php_couchbase.Zval.{Zval}
use php_couchbase.OpCookie
use php_couchbase.OpCookie.{OpCookie, lcb_success}
use php_couchbase.Params.{
  PpState, Outcome, ok, failure, fault, begin, next, Step, item, done, stray, keycount, is_mapped,
}
use php_couchbase.Params.Left.{left, next-Advances, left-begin}
use php_couchbase.Lcb.{Env, Command}
use php_couchbase.Bucket.Results.{Return, null, deliver, KeyRes, Callback}
use php_couchbase.Bucket.Schedule.{
  Round, send, reject, stop, crash, Progress, Scheduled, finished, rejected, undefined, exhausted,
  after_submit, round, step, schedule, Ending, stuck, run, run_state, after_loop, conclude, finish,
  idle,
}

pub Step-cases :
    (r : Step) → ((t : PpState) × (r ≡ item t)) ⊎ (((t : PpState) × (r ≡ done t)) ⊎ (r ≡ stray))
Step-cases (item t) = inl (t, refl)
Step-cases (done t) = inr (inl (t, refl))
Step-cases stray = inr (inr refl)

pub Outcome-cases {ℓ} :
    {A : Type ℓ} (r : Outcome A) → ((a : A) × (r ≡ ok a)) ⊎ ((r ≡ failure) ⊎ (r ≡ fault))
Outcome-cases (ok a) = inl (a, refl)
Outcome-cases failure = inr (inl refl)
Outcome-cases fault = inr (inr refl)

module _ (env : Env) (build : PpState → Round) where
  after_submit-total :
      (continue : Progress → Scheduled) (c : Command) (err : ℕ) (p : Progress)
      → ((q : Progress) → continue q ≢ exhausted)
      → after_submit env build continue c err p ≢ exhausted
  unfolding after_submit
  after_submit-total continue c err p total e = elim (Bool-cases (err == lcb_success)) [
    | inl fine ↦ total _ (rw fine at e)
    | inr bad ↦ absurd (cc (rw bad at e))
  ]

  -- One round ends in `exhausted` only if the rest does.
  round-total :
      (continue : Progress → Scheduled) (r : Round) (p : Progress)
      → ((q : Progress) → continue q ≢ exhausted)
      → round env build continue r p ≢ exhausted
  unfolding round
  round-total continue (send c) p total e =
      after_submit-total continue c (env.submit p.accepted c) p total e
  round-total continue reject p total e = cc
  round-total continue (stop err) p total e = cc
  round-total continue crash p total e = cc

  -- With more fuel than ids that are left the loop ends.
  pub schedule-total :
      (fuel : ℕ) (s : PpState) (p : Progress)
      → left s < fuel
      → schedule env build fuel s p ≢ exhausted
  unfolding schedule step
  schedule-total zero s p h e = absurd (omega arith)
  schedule-total (suc fuel) s p h e = elim (Step-cases (next env.fetch s)) [
    | inl (t, q) ↦
        round-total (schedule env build fuel t) (build t) p
          (λ r. schedule-total fuel t r (less t q)) (rw (q, step) at e)
    | inr (inl (t, q)) ↦ absurd (cc (rw (q, step) at e))
    | inr (inr q) ↦ absurd (cc (rw (q, step) at e))
  ]
    where
      less : (t : PpState) → next env.fetch s ≡ item t → left t < fuel
      less t q = omega (arith, (next-Advances env.fetch s t q).fewer)

module _ {ℓ} {A : Type ℓ} (env : Env) (callback : Callback A)
    (proc : OpCookie (KeyRes A) → Bool → ℕ × Return) where
  finish-ne-stuck : (err : Option ℕ) (ret : Return) → finish err ret ≢ stuck
  unfolding finish
  finish-ne-stuck none ret e = cc
  finish-ne-stuck (some err) ret e = ground arith

  if-ne-stuck : (b : Bool) (x y : Ending) → x ≢ stuck → y ≢ stuck → (if b then x else y) ≢ stuck
  if-ne-stuck true x y p q = p
  if-ne-stuck false x y p q = q

  after_loop-ne-stuck :
      (mapped : Bool) (r : Scheduled)
      → r ≢ exhausted
      → after_loop env callback proc mapped r ≢ stuck
  unfolding after_loop conclude
  after_loop-ne-stuck mapped (finished p) h e =
      let r = proc (deliver callback OpCookie.init (env.wait p.accepted)) mapped in
      if-ne-stuck (p.nscheduled == 0) (finish p.err null) (finish (some r.0) r.1)
        (finish-ne-stuck p.err null) (finish-ne-stuck (some r.0) r.1) e
  after_loop-ne-stuck mapped rejected h e = cc
  after_loop-ne-stuck mapped undefined h e = cc
  after_loop-ne-stuck mapped exhausted h e = h refl

  -- No operation runs out of fuel, on any arguments and with any answers of libcouchbase.
  pub run-ne-stuck :
      (spec : Bytes) (err : Option ℕ) (build : PpState → Round) (params : List Zval)
      → run env spec err build callback proc params ≢ stuck
  unfolding run run_state
  run-ne-stuck spec err build params e = elim (Outcome-cases (begin env.fetch params spec)) [
    | inl (s, q) ↦
        after_loop-ne-stuck (is_mapped s) (schedule env build (suc (keycount s)) s (idle err))
          (schedule-total env build (suc (keycount s)) s (idle err)
            (omega (arith, (left-begin env.fetch params spec s q).0)))
          (rw (q, run) at e)
    | inr (inl q) ↦ absurd (cc (rw (q, run) at e))
    | inr (inr q) ↦ absurd (cc (rw (q, run) at e))
  ]
