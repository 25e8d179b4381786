-- ===== src/Bucket/Durability.antt =====
-- src/couchbase/bucket/durability.c. lcb_durability_poll is the parameter `poll`. No instance has
-- durability_callback, so that no response gives a result.
pub mod Bounds
use php_couchbase.Base.{
  ℕ, zero, suc, ◌%◌, ◌^◌, List, [], ◌∷◌, ◌++◌, Option, none, some, Bytes, codes, ◌==◌, ◌&&◌,
  if◌then◌else◌,
}
use php_couchbase.Zval.{Zval, long}
use php_couchbase.OpCookie
use php_couchbase.OpCookie.{OpCookie, push, lcb_success}
use php_couchbase.Params.{
  PpState, ok, failure, fault, begin, next, Step, item, done, stray, keycount, is_mapped,
}
use php_couchbase.Lcb.{Env, CasCmd}
use php_couchbase.Bucket.Options.{check_long, check_string, cas_of, hashkey_of}
use php_couchbase.Bucket.Results.{KeyRes, proc_unlock_results}
use php_couchbase.Bucket.Schedule.{Ending, thrown, unspecified, stuck, finish, arg}

-- The fields of lcb_durability_opts_t that the method writes, 16 bits each.
pub record DurabilityOpts : Type 0 where
  pub persist_to : ℕ
  pub replicate_to : ℕ

-- durability_callback: it stores the key and leaves `key_len` cleared.
unfoldable pub durability_callback :
    OpCookie (KeyRes (Unit {0})) → ℕ → Bytes → OpCookie (KeyRes (Unit {0}))
durability_callback cookie error key =
    push cookie error (record { key = key; key_len = 0; fields = tt })

-- `if (z) opts.v.v0.persist_to = (lcb_U16)Z_LVAL_P(z)`
u16_or : ℕ → Option Zval → ℕ
u16_or old (some (long n)) = n % 2 ^ 16
u16_or old _ = old

-- One round's command, `cmd[ii]`, and the options after it.
command_of : PpState → CasCmd
command_of s = record { key = s.id; cas = cas_of (arg s 0); hashkey = hashkey_of (arg s 1) }

opts_after : PpState → DurabilityOpts → DurabilityOpts
unfolding u16_or
opts_after s opts = record {
  persist_to = u16_or opts.persist_to (arg s 2);
  replicate_to = u16_or opts.replicate_to (arg s 3);
}

-- How the loop ends. `exhausted` is no result of the program.
pub data Commands : Type 0 where
  made : List CasCmd → DurabilityOpts → Commands
  rejected undefined exhausted : Commands

module _ (env : Env) where
  -- One round, with the rest of the loop as `continue`.
  commands_round :
      (PpState → List CasCmd → DurabilityOpts → Commands)
      → PpState
      → List CasCmd
      → DurabilityOpts
      → Commands
  unfolding command_of opts_after
  commands_round continue s cmds opts =
      let rest = continue s (cmds ++ command_of s ∷ []) (opts_after s opts) in
      if check_string (arg s 0)
        && check_string (arg s 1)
        && check_long (arg s 2)
        && check_long (arg s 3)
      then rest
      else rejected

  commands_step :
      (PpState → List CasCmd → DurabilityOpts → Commands)
      → Step
      → List CasCmd
      → DurabilityOpts
      → Commands
  unfolding commands_round
  commands_step continue (item s) cmds opts = commands_round continue s cmds opts
  commands_step continue (done s) cmds opts = made cmds opts
  commands_step continue stray cmds opts = undefined

  -- The `for` loop, on fuel.
  unfoldable pub make_commands : ℕ → PpState → List CasCmd → DurabilityOpts → Commands
  unfolding commands_step
  make_commands zero s cmds opts = exhausted
  make_commands (suc fuel) s cmds opts =
      commands_step (make_commands fuel) (next env.fetch s) cmds opts

  module _ (poll : List CasCmd → DurabilityOpts → ℕ) where
    -- What follows the loop.
    unfoldable pub after_commands : PpState → Commands → Ending
    after_commands s (made cmds opts) =
        let (err, ret) = proc_unlock_results env OpCookie.init (is_mapped s) in
        if poll cmds opts == lcb_success then finish (some err) ret else thrown (poll cmds opts)
    after_commands s rejected = thrown env.lcb_einval
    after_commands s undefined = unspecified
    after_commands s exhausted = stuck

    -- Bucket::durability; the options are cleared first.
    unfoldable pub durability_method : List Zval → Ending
    unfolding make_commands after_commands
    durability_method params =
        elim (begin env.fetch params (codes "id||cas,groupid,persist_to,replicate_to")) [
          | ok s ↦
              after_commands s (
                make_commands (suc (keycount s)) s [] (record { persist_to = 0; replicate_to = 0 }))
          | failure ↦ thrown env.lcb_einval
          | fault ↦ unspecified
        ]
