-- ===== src/Bucket/Schedule/Order.antt =====
-- The scheduling loop takes the ids in their order, one command for each.
use php_couchbase.Base.{
  ℕ, zero, suc, ◌+◌, ◌≡◌, refl, ap, sym, ◌∙◌, subst, true, false, inl, inr, List, [], ◌∷◌, ◌++◌,
  append_assoc, append-nil, map, Option, none, some, arith, Bytes, ◌==◌, Bool-cases, Option-cases,
  length, length-append,
}
use mathlib.Core.List.{map-append}
use php_couchbase.OpCookie.{lcb_success}
use php_couchbase.Params.{PpState, next}
use php_couchbase.Params.Iterate.{cons_id}
use php_couchbase.Params.Left.{ids_left, next-Advances, next-done}
use php_couchbase.Lcb.{Env, Command, command_key}
use php_couchbase.Bucket.Schedule.{
  Round, send, reject, stop, crash, Progress, Scheduled, finished, after_submit, round, step,
  schedule,
}
use php_couchbase.Bucket.Schedule.Loop.{Step-cases}

abbrev pub keys : List Command → List Bytes
keys = map command_key

-- What an operation's round does: its command carries the id, and an error that stops the loop is
-- no success.
pub record IsRound (build : PpState → Round) : Type 0 where
  pub sends : (s : PpState) (c : Command) → build s ≡ send c → command_key c ≡ s.id
  pub stops : (s : PpState) (err : ℕ) → build s ≡ stop err → (err == lcb_success) ≡ false

-- From `p` to `q` the loop has scheduled a prefix of the ids `is`, in order, and all of them if
-- `q` reports no error.
pub record Schedules (p q : Progress) (is : List Bytes) : Type 0 where
  pub rest : List Bytes
  pub in_order : keys q.accepted ++ rest ≡ keys p.accepted ++ is
  pub counted : q.nscheduled + length p.accepted ≡ p.nscheduled + length q.accepted
  pub complete : (err : ℕ) → q.err ≡ some err → (err == lcb_success) ≡ true → rest ≡ []

abbrev finished_of : Progress → Scheduled → Progress
finished_of d (finished q) = q
finished_of d _ = d

abbrev or_empty : Option (List Bytes) → List Bytes
or_empty none = []
or_empty (some is) = is

keys-append :
    (p : Progress) (c : Command) (is : List Bytes)
    → keys (p.accepted ++ c ∷ []) ++ is ≡ keys p.accepted ++ command_key c ∷ is
keys-append p c is =
    ap (λ (l : List Bytes). l ++ is) (map-append command_key p.accepted (c ∷ []))
    ∙ append_assoc (keys p.accepted) (command_key c ∷ []) is

-- A loop that breaks with an error has scheduled nothing more.
broken :
    (p : Progress) (err : ℕ) (is : List Bytes)
    → (err == lcb_success) ≡ false
    → Schedules p (record p { err = some err }) is
broken p err is h = record {
  rest = is;
  in_order = refl;
  counted = refl;
  complete = λ e q z. absurd (ground arith);
}

-- The progress after a command was accepted.
abbrev advanced : Progress → Command → ℕ → Progress
advanced p c err = record {
  nscheduled = p.nscheduled + 1;
  err = some err;
  accepted = p.accepted ++ c ∷ [];
}

after_accept :
    (p q : Progress) (c : Command) (err : ℕ) (i : Bytes) (is : List Bytes)
    → command_key c ≡ i
    → Schedules (advanced p c err) q is
    → Schedules p q (i ∷ is)
after_accept p q c err i is k v = record {
  rest = v.rest;
  in_order = v.in_order ∙ keys-append p c is ∙ ap (λ j. keys p.accepted ++ j ∷ is) k;
  counted = omega (arith, v.counted, length-append p.accepted (c ∷ []));
  complete = v.complete;
}

module _ (env : Env) (build : PpState → Round) (good : IsRound build) where
  after_submit-Schedules :
      (continue : Progress → Scheduled) (c : Command) (err : ℕ) (p q : Progress) (i : Bytes)
      (is : List Bytes)
      → command_key c ≡ i
      → ((r : Progress) → continue r ≡ finished q → Schedules r q is)
      → after_submit env build continue c err p ≡ finished q
      → Schedules p q (i ∷ is)
  unfolding after_submit
  after_submit-Schedules continue c err p q i is k go e = elim (Bool-cases (err == lcb_success)) [
    | inl fine ↦ after_accept p q c err i is k (go (advanced p c err) (rw fine at e))
    | inr bad ↦
        subst (λ r. Schedules p r (i ∷ is)) (ap (finished_of p) (rw bad at e))
          (broken p err (i ∷ is) bad)
  ]

  round-Schedules :
      (continue : Progress → Scheduled) (t : PpState) (r : Round) (p q : Progress) (is : List Bytes)
      → build t ≡ r
      → ((r : Progress) → continue r ≡ finished q → Schedules r q is)
      → round env build continue r p ≡ finished q
      → Schedules p q (t.id ∷ is)
  unfolding round
  round-Schedules continue t (send c) p q is b go e =
      after_submit-Schedules continue c (env.submit p.accepted c) p q t.id is (good.sends t c b) go
        e
  round-Schedules continue t reject p q is b go e = absurd (cc)
  round-Schedules continue t (stop err) p q is b go e =
      subst (λ r. Schedules p r (t.id ∷ is)) (ap (finished_of p) e)
        (broken p err (t.id ∷ is) (good.stops t err b))
  round-Schedules continue t crash p q is b go e = absurd (cc)

  -- The commands that a loop has scheduled when it ends are for the first of the ids, in order; if
  -- it reports no error they are for all of them.
  pub schedule-Schedules :
      (fuel : ℕ) (s : PpState) (p q : Progress) (is : List Bytes)
      → ids_left s ≡ some is
      → schedule env build fuel s p ≡ finished q
      → Schedules p q is
  unfolding schedule step
  schedule-Schedules zero s p q is i e = absurd (cc)
  schedule-Schedules (suc fuel) s p q is i e = elim (Step-cases (next env.fetch s)) [
    | inl (t, n) ↦
        let v = (next-Advances env.fetch s t n).same in
        elim (Option-cases (ids_left t)) [
          | inl off ↦ absurd (cc (ap (cons_id (some t.id)) off))
          | inr (js, on) ↦
              subst (Schedules p q) (ap or_empty (sym (ap (cons_id (some t.id)) on) ∙ sym v ∙ i)) (
                round-Schedules (schedule env build fuel t) t (build t) p q js refl
                  (λ r f. schedule-Schedules fuel t r q js on f) (rw (n, step) at e))
        ]
    | inr (inl (t, n)) ↦
        subst (λ r. Schedules p r is) (ap (finished_of p) (rw (n, step) at e))
          (record {
            rest = [];
            in_order =
                append-nil (keys p.accepted)
                ∙ sym (append-nil (keys p.accepted))
                ∙ ap (λ (l : List Bytes). keys p.accepted ++ l)
                    (ap or_empty (sym (next-done env.fetch s t n) ∙ i));
            counted = refl;
            complete = λ err f z. refl;
          })
    | inr (inr n) ↦ absurd (cc (rw (n, step) at e))
  ]
