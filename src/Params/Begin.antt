-- ===== src/Params/Begin.antt =====
-- paramparser.c: the state of the parser, and pcbc_pp_begin.
pub mod Fresh
use php_couchbase.Base.{
  ℕ, zero, suc, ◌+◌, ◌-◌, Bool, true, false, not, List, [], ◌∷◌, ◌++◌, Option, none, some, Bytes,
  codes, ltb, ◌==◌, ◌&&◌, ◌||◌, bytes_eq, get_or, get_elem?, length, if◌then◌else◌,
}
use php_couchbase.Zval.{Zval, Entries, undef, null, bool, long, double, string, array, object, end}

-- pcbc_pp_state_arg; `out` is the variable behind `ptr`.
pub record StateArg : Type 0 where
  pub name : Bytes
  pub out : Option Zval
  pub val : Zval

-- pcbc_pp_state; `id` is the pcbc_pp_id behind the first argument's pointer, and `args` holds the
-- arguments after it.
pub record PpState : Type 0 where
  pub args : List StateArg
  pub arg_req : ℕ
  pub arg_opt : ℕ
  pub arg_named : ℕ
  pub cur_idx : ℕ
  pub zids : Zval
  pub hash_pos : Entries
  pub id : Bytes

-- SUCCESS with the state, FAILURE, or undefined behaviour.
pub data Outcome {ℓ} (A : Type ℓ) : Type ℓ where
  ok : A → Outcome A
  failure fault : Outcome A

-- The local variables of the loop over the specification.
record Scan : Type 0 where
  state : PpState
  arg_name : Bytes
  arg_type : ℕ
  arg_num : ℕ

-- `state->arg_req++` and its like.
count_arg : ℕ → PpState → PpState
count_arg zero s = record s { arg_req = s.arg_req + 1 }
count_arg (suc zero) s = record s { arg_opt = s.arg_opt + 1 }
count_arg (suc (suc zero)) s = record s { arg_named = s.arg_named + 1 }
count_arg _ s = s

-- `args[arg_num]` if it was passed, for an argument that is not named.
arg_value : List Zval → ℕ → ℕ → Zval
arg_value params arg_num arg_type =
    if ltb 0 arg_num && ltb arg_num (length params) && ltb arg_type 2
    then get_or params arg_num undef
    else undef

-- The id is no entry of `args`.
store_arg : ℕ → StateArg → PpState → PpState
store_arg zero a s = s
store_arg (suc n) a s = record s { args = s.args ++ a ∷ [] }

-- The loop's variables after an argument was stored and counted.
stored : List Zval → Scan → Scan
unfolding count_arg arg_value store_arg
stored params t = record t {
  state = count_arg t.arg_type (
      store_arg t.arg_num
        (record { name = t.arg_name; out = none; val = arg_value params t.arg_num t.arg_type })
        t.state);
  arg_num = t.arg_num + 1;
}

-- The end of an argument's name: `,`, `|` or the terminator. The first one must be `id`.
add_arg : List Zval → Scan → Outcome Scan
unfolding stored
add_arg params t =
    if t.arg_num == 0 && not (bytes_eq t.arg_name (codes "id"))
    then failure
    else ok (stored params t)

end_name : List Zval → Scan → Outcome Scan
unfolding add_arg
end_name params t = if length t.arg_name == 0 then ok t else add_arg params t

-- The rest of a round: `|` moves to the next kind of argument.
after_name : ℕ → Outcome Scan → Outcome Scan
after_name c (ok t) = ok (record t {
  arg_name = [];
  arg_type = if c == b'|' && ltb t.arg_type 2 then t.arg_type + 1 else t.arg_type;
})
after_name c failure = failure
after_name c fault = fault

scan_char : List Zval → ℕ → Scan → Outcome Scan
unfolding end_name after_name
scan_char params c t =
    if c == b',' || c == b'|'
    then after_name c (end_name params t)
    else ok (record t { arg_name = t.arg_name ++ c ∷ [] })

abbrev and_then : Outcome Scan → (Scan → Outcome Scan) → Outcome Scan
and_then (ok t) f = f t
and_then failure f = failure
and_then fault f = fault

-- The `do` loop over the specification.
scan : List Zval → Bytes → Scan → Outcome Scan
unfolding scan_char
scan params [] t = end_name params t
scan params (c ∷ spec) t = and_then (scan_char params c t) (scan params spec)

module _ (fetch : Entries → Bytes → Option Zval) where
  -- `arg->val` of a named argument, from the options array if there is one.
  named_value : Option Entries → Bytes → Zval
  named_value none name = undef
  named_value (some es) name = elim (fetch es name) [ none ↦ undef | some z ↦ z ]

  -- The loop over the named arguments, which begin `skip` places on.
  fill_named : Option Entries → ℕ → List StateArg → List StateArg
  unfolding named_value
  fill_named options skip [] = []
  fill_named options zero (a ∷ args) =
      record a { val = named_value options a.name } ∷ fill_named options zero args
  fill_named options (suc skip) (a ∷ args) = a ∷ fill_named options skip args

  -- The switch on the type of the ids.
  check_ids : PpState → Zval → Outcome PpState
  check_ids s (array es) = ok (record s { hash_pos = es })
  check_ids s (string str) = ok s
  check_ids s _ = failure

  filled : PpState → Option Entries → PpState
  unfolding fill_named
  filled s options = record s { args = fill_named options (s.arg_req + s.arg_opt - 1) s.args }

  with_options : PpState → Option Entries → Outcome PpState
  unfolding filled check_ids
  with_options s options = check_ids (filled s options) s.zids

  -- The options argument, `args[arg_unnamed]`: it must be an array.
  options_of : PpState → Option Zval → Outcome PpState
  unfolding with_options
  options_of s none = with_options s none
  options_of s (some (array es)) = with_options s (some es)
  options_of s (some _) = failure

  finish_scan : List Zval → Outcome Scan → Outcome PpState
  unfolding options_of
  finish_scan params (ok t) =
      if ltb (length params) t.state.arg_req
      then failure
      else options_of t.state (get_elem? params (t.state.arg_req + t.state.arg_opt))
  finish_scan params failure = failure
  finish_scan params fault = fault

  -- `state` after the assignments that precede the loop. With no argument at all `zids` is not
  -- read, since the id is required.
  abbrev initial : List Zval → PpState
  initial params = record {
    args = [];
    arg_req = 0;
    arg_opt = 0;
    arg_named = 0;
    cur_idx = 0;
    zids = get_or params 0 undef;
    hash_pos = end;
    id = [];
  }

  -- pcbc_pp_begin. The array `args` has PCBC_PP_MAX_ARGS = 10 places, and the engine writes one
  -- for each argument that was passed.
  unfoldable pub begin : List Zval → Bytes → Outcome PpState
  unfolding scan finish_scan
  begin params spec =
      if ltb 10 (length params)
      then fault
      else finish_scan params (
          scan params spec
            (record { state = initial params; arg_name = []; arg_type = 0; arg_num = 0 }))
