-- ===== src/Subdoc/MutateIn/Built.antt =====
-- mutate_in_builder.c: the specifications that the methods of a builder leave in it.
use php_couchbase.Base.{
  ℕ, ◌%◌, ◌^◌, ◌≡◌, refl, Bool, true, false, List, [], ◌∷◌, ◌++◌, Option, none, some, arith, Bytes,
  length, length-append, All,
}
use php_couchbase.Zval.{Zval}
use php_couchbase.Decimal.{signed_decimal}
use php_couchbase.Subdoc.{
  SdCmd, SdFlags, SdSpec, SubdocEnv, options_to_flags, sd_remove, sd_counter,
}
use php_couchbase.Subdoc.MutateIn.{
  MutateInBuilder, init, push_spec, builder_put, builder_put_all, builder_remove, set_value,
  spec_of, and_strip, remove, counter, insert, upsert, replace, array_insert, array_insert_all,
  array_add_unique, array_prepend, array_prepend_all, array_append, array_append_all,
}

-- What one specification holds.
abbrev pub spec_with : SdCmd → SdFlags → Bytes → Option Bytes → SdSpec
spec_with sdcmd flags path value = record {
  sdcmd = sdcmd;
  options = flags;
  path = path;
  value = value;
}

-- A specification has a value exactly if it is no removal.
abbrev pub HasValue : SdSpec → Type 0
HasValue spec = elim spec.value [ none ↦ spec.sdcmd ≡ sd_remove | some v ↦ Unit ]

-- The count of a builder is that of its specifications, each of which is complete.
pub record IsBuilt (b : MutateInBuilder) : Type 0 where
  pub counted : b.nspecs ≡ length b.specs % 2 ^ 32
  pub complete : All HasValue b.specs

init-IsBuilt : (id : Bytes) (cas : ℕ) → IsBuilt (init id cas)
unfolding init
init-IsBuilt id cas = record { counted = omega arith; complete = tt }

All-append :
    (specs : List SdSpec) (spec : SdSpec)
    → All HasValue specs
    → HasValue spec
    → All HasValue (specs ++ spec ∷ [])
All-append [] spec a h = (h, tt)
All-append (s ∷ specs) spec a h = (a.0, All-append specs spec a.1 h)

push_spec-IsBuilt :
    (b : MutateInBuilder) (spec : SdSpec) → IsBuilt b → HasValue spec → IsBuilt (push_spec b spec)
unfolding push_spec
push_spec-IsBuilt b spec v h = record {
  counted = omega (arith, v.counted, length-append b.specs (spec ∷ []));
  complete = All-append b.specs spec v.complete h;
}

-- A call of a method on a builder.
pub data Call : Type 0 where
  remove_call : Bytes → Option Zval → Call
  counter_call : Bytes → ℕ → Option Zval → Call
  insert_call upsert_call replace_call : Bytes → Zval → Option Zval → Call
  array_insert_call array_insert_all_call : Bytes → Zval → Option Zval → Call
  array_add_unique_call : Bytes → Zval → Option Zval → Call
  array_prepend_call array_prepend_all_call : Bytes → Zval → Option Zval → Call
  array_append_call array_append_all_call : Bytes → Zval → Option Zval → Call

module _ (env : SubdocEnv) where
  pub builder_put-none :
      (sdcmd : SdCmd) (b : MutateInBuilder) (path : Bytes) (value : Zval) (flags : SdFlags)
      → env.json_encode value ≡ none
      → builder_put env sdcmd b path value flags ≡ (b, false)
  unfolding builder_put set_value
  builder_put-none sdcmd b path value flags e = rw e refl

  pub builder_put-some :
      (sdcmd : SdCmd) (b : MutateInBuilder) (path : Bytes) (value : Zval) (flags : SdFlags)
      (text : Bytes)
      → env.json_encode value ≡ some text
      → builder_put env sdcmd b path value flags
        ≡ (push_spec b (spec_with sdcmd flags path (some text)), true)
  unfolding builder_put set_value spec_of
  builder_put-some sdcmd b path value flags text e = rw e refl

  pub builder_remove-push_spec :
      (b : MutateInBuilder) (path : Bytes) (flags : SdFlags)
      → builder_remove env b path flags ≡ push_spec b (spec_with sd_remove flags path none)
  unfolding builder_remove spec_of
  builder_remove-push_spec b path flags = refl

  set_value-IsBuilt :
      (sdcmd : SdCmd) (b : MutateInBuilder) (path : Bytes) (flags : SdFlags) (v : Option Bytes)
      → IsBuilt b
      → IsBuilt (set_value env sdcmd b path flags v).0
  unfolding set_value spec_of
  set_value-IsBuilt sdcmd b path flags none h = h
  set_value-IsBuilt sdcmd b path flags (some v) h =
      push_spec-IsBuilt b (spec_with sdcmd flags path (some v)) h tt

  builder_put-IsBuilt :
      (sdcmd : SdCmd) (b : MutateInBuilder) (path : Bytes) (value : Zval) (flags : SdFlags)
      → IsBuilt b
      → IsBuilt (builder_put env sdcmd b path value flags).0
  unfolding builder_put
  builder_put-IsBuilt sdcmd b path value flags h =
      set_value-IsBuilt sdcmd b path flags (env.json_encode value) h

  builder_put_all-IsBuilt :
      (sdcmd : SdCmd) (b : MutateInBuilder) (path : Bytes) (value : Zval) (flags : SdFlags)
      → IsBuilt b
      → IsBuilt (builder_put_all env sdcmd b path value flags).0
  unfolding builder_put_all
  builder_put_all-IsBuilt sdcmd b path value flags h =
      set_value-IsBuilt sdcmd b path flags (and_strip env (env.json_encode value)) h

  abbrev pub call : MutateInBuilder → Call → MutateInBuilder × Bool
  call b (remove_call path options) = remove env b path options
  call b (counter_call path delta options) = counter env b path delta options
  call b (insert_call path value options) = insert env b path value options
  call b (upsert_call path value options) = upsert env b path value options
  call b (replace_call path value options) = replace env b path value options
  call b (array_insert_call path value options) = array_insert env b path value options
  call b (array_insert_all_call path value options) = array_insert_all env b path value options
  call b (array_add_unique_call path value options) = array_add_unique env b path value options
  call b (array_prepend_call path value options) = array_prepend env b path value options
  call b (array_prepend_all_call path value options) = array_prepend_all env b path value options
  call b (array_append_call path value options) = array_append env b path value options
  call b (array_append_all_call path value options) = array_append_all env b path value options

  call-IsBuilt : (b : MutateInBuilder) (c : Call) → IsBuilt b → IsBuilt (call b c).0
  unfolding remove counter insert upsert replace array_insert array_insert_all array_add_unique
      array_prepend array_prepend_all array_append array_append_all builder_remove set_value spec_of
  call-IsBuilt b (remove_call path o) h =
      push_spec-IsBuilt b (spec_with sd_remove (options_to_flags env false o) path none) h refl
  call-IsBuilt b (counter_call path delta o) h =
      push_spec-IsBuilt b
        (spec_with sd_counter (options_to_flags env false o) path (some (signed_decimal delta))) h
        tt
  call-IsBuilt b (insert_call path v o) h = builder_put-IsBuilt _ b path v _ h
  call-IsBuilt b (upsert_call path v o) h = builder_put-IsBuilt _ b path v _ h
  call-IsBuilt b (replace_call path v o) h = builder_put-IsBuilt _ b path v _ h
  call-IsBuilt b (array_insert_call path v o) h = builder_put-IsBuilt _ b path v _ h
  call-IsBuilt b (array_insert_all_call path v o) h = builder_put_all-IsBuilt _ b path v _ h
  call-IsBuilt b (array_add_unique_call path v o) h = builder_put-IsBuilt _ b path v _ h
  call-IsBuilt b (array_prepend_call path v o) h = builder_put-IsBuilt _ b path v _ h
  call-IsBuilt b (array_prepend_all_call path v o) h = builder_put_all-IsBuilt _ b path v _ h
  call-IsBuilt b (array_append_call path v o) h = builder_put-IsBuilt _ b path v _ h
  call-IsBuilt b (array_append_all_call path v o) h = builder_put_all-IsBuilt _ b path v _ h

  -- The builder that a chain of calls leaves, whatever each returned.
  abbrev pub calls : MutateInBuilder → List Call → MutateInBuilder
  calls b [] = b
  calls b (c ∷ cs) = calls (call b c).0 cs

  calls_keep : (b : MutateInBuilder) (cs : List Call) → IsBuilt b → IsBuilt (calls b cs)
  calls_keep b [] h = h
  calls_keep b (c ∷ cs) h = calls_keep (call b c).0 cs (call-IsBuilt b c h)

  -- Whatever methods are called on a new builder, its count is the number of its specifications in
  -- 32 bits, and every specification has a value but that of a removal.
  pub calls-IsBuilt : (id : Bytes) (cas : ℕ) (cs : List Call) → IsBuilt (calls (init id cas) cs)
  calls-IsBuilt id cas cs = calls_keep (init id cas) cs (init-IsBuilt id cas)
