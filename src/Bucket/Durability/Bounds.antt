-- ===== src/Bucket/Durability/Bounds.antt =====
-- durability.c: the arrays of commands, and how the method ends.
use php_couchbase.Base.{
  ℕ, zero, suc, ◌+◌, ◌<◌, ◌≤◌, ◌≡◌, refl, inl, inr, Bool, true, false, List, [], ◌∷◌, ◌++◌, arith,
  codes, length, length-append, ◌==◌, if◌then◌else◌,
}
use php_couchbase.Zval.{Zval}
use php_couchbase.OpCookie
use php_couchbase.OpCookie.{lcb_success, get_first_error}
use php_couchbase.OpCookie.Linked.{results-init}
use php_couchbase.Params.{PpState, begin, next, ok, keycount, is_mapped}
use php_couchbase.Params.Left.{left, next-Advances, left-begin}
use php_couchbase.Lcb.{Env, CasCmd}
use php_couchbase.Bucket.Results.{null, proc_unlock_results, proc_results}
use php_couchbase.Bucket.Schedule.{Ending, returned, thrown, unspecified, stuck, finish}
use php_couchbase.Bucket.Schedule.Loop.{Step-cases}
use php_couchbase.Bucket.Durability.{
  DurabilityOpts, Commands, made, rejected, undefined, exhausted, make_commands, commands_round,
  commands_step, command_of, opts_after, after_commands, durability_method,
}

-- The loop has ended, with no more than `room` commands if it has made them.
abbrev pub Within : ℕ → Commands → Type 0
Within room (made cmds opts) = length cmds ≤ room
Within room rejected = Unit
Within room undefined = Unit
Within room exhausted = ⊥

bounded_by : (cmds : List CasCmd) (room n : ℕ) → length cmds + n ≤ room → length cmds ≤ room
bounded_by cmds room n h = omega (arith, h)

if-Within :
    (room : ℕ) (b : Bool) (c : Commands) → Within room c → Within room (if b then c else rejected)
if-Within room true c w = w
if-Within room false c w = tt

module _ (env : Env) where
  round-Within :
      (continue : PpState → List CasCmd → DurabilityOpts → Commands) (s : PpState)
      (cmds : List CasCmd) (opts : DurabilityOpts) (room : ℕ)
      → Within room (continue s (cmds ++ command_of s ∷ []) (opts_after s opts))
      → Within room (commands_round env continue s cmds opts)
  unfolding commands_round
  round-Within continue s cmds opts room w = if-Within room _ _ w

  make_commands-Within :
      (fuel : ℕ) (s : PpState) (cmds : List CasCmd) (opts : DurabilityOpts) (room : ℕ)
      → left s < fuel
      → length cmds + left s ≤ room
      → Within room (make_commands env fuel s cmds opts)
  unfolding make_commands commands_step
  make_commands-Within zero s cmds opts room f h = absurd (omega arith)
  make_commands-Within (suc fuel) s cmds opts room f h = elim (Step-cases (next env.fetch s)) [
    | inl (t, q) ↦
        let fewer = (next-Advances env.fetch s t q).fewer in
        rw q (
          round-Within (make_commands env fuel) t cmds opts room (
            make_commands-Within fuel t (cmds ++ command_of t ∷ []) (opts_after t opts) room
              (omega (arith, fewer))
              (omega (arith, fewer, length-append cmds (command_of t ∷ [])))))
    | inr (inl (t, q)) ↦ rw q (bounded_by cmds room (left s) h)
    | inr (inr q) ↦ rw q tt
  ]

  abbrev pub cleared : DurabilityOpts
  cleared = record { persist_to = 0; replicate_to = 0 }

  abbrev pub commands_for : PpState → Commands
  commands_for s = make_commands env (suc (keycount s)) s [] cleared

  -- How the method ends, by how its loop does.
  abbrev pub ending_of : (List CasCmd → DurabilityOpts → ℕ) → Commands → Ending
  ending_of poll (made cmds opts) =
      if poll cmds opts == lcb_success then returned null else thrown (poll cmds opts)
  ending_of poll rejected = thrown env.lcb_einval
  ending_of poll undefined = unspecified
  ending_of poll exhausted = stuck

  no_results : (mapped : Bool) → proc_unlock_results env OpCookie.init mapped ≡ (lcb_success, null)
  unfolding proc_unlock_results proc_results get_first_error OpCookie.init
  no_results true = rw results-init refl
  no_results false = rw results-init refl

  after_commands-ending_of :
      (poll : List CasCmd → DurabilityOpts → ℕ) (s : PpState) (c : Commands)
      → after_commands env poll s c ≡ ending_of poll c
  unfolding after_commands finish
  after_commands-ending_of poll s (made cmds opts) = rw (no_results (is_mapped s)) refl
  after_commands-ending_of poll s rejected = refl
  after_commands-ending_of poll s undefined = refl
  after_commands-ending_of poll s exhausted = refl

  -- Once its arguments are read, the loop of Bucket::durability ends and has made at most as many
  -- commands as the arrays have room for, pcbc_pp_keycount. If lcb_durability_poll then accepts them
  -- the method returns null, whatever the servers answer, and otherwise it throws the error code.
  pub durability-Within :
      (poll : List CasCmd → DurabilityOpts → ℕ) (params : List Zval) (s : PpState)
      → begin env.fetch params (codes "id||cas,groupid,persist_to,replicate_to") ≡ ok s
      → Within (keycount s) (commands_for s)
        × (durability_method env poll params ≡ ending_of poll (commands_for s))
  unfolding durability_method
  durability-Within poll params s b =
      let room =
        (left-begin env.fetch params (codes "id||cas,groupid,persist_to,replicate_to") s b).0 in
      (
        make_commands-Within (suc (keycount s)) s [] cleared (keycount s) (omega (arith, room))
            (omega (arith, room)),
        rw (b, durability_method) (after_commands-ending_of poll s (commands_for s)),
      )
