-- ===== src/Params.antt =====
-- paramparser.c: the arguments of a bucket operation, from its specification string, and the
-- iteration over its document ids. `pcbc_pp_begin` is in the child Begin, with its tables; the
-- theorems are in Iterate. `php_array_fetch` of the vendored contrib/php_array.h is the parameter
-- `fetch`. The variables behind `va_arg` pointers are the field `out` of each argument, and the
-- hash position is the part of the array from it on.
mod Begin
pub mod Iterate
pub mod Left
pub mod One
pub use Begin.{StateArg, PpState, Outcome, ok, failure, fault}
unfoldable pub use Begin.{begin}
use php_couchbase.Base.{
  ℕ, zero, suc, ◌+◌, Bool, true, false, not, List, [], ◌∷◌, Option, none, some, Bytes, ltb,
  if◌then◌else◌, map,
}
use php_couchbase.Zval.{
  Zval, Entries, Key, str, num, undef, string, array, end, entry, count, is_string, defined,
}

-- pcbc_pp_ismapped
unfoldable pub is_mapped : PpState → Bool
is_mapped state = not (is_string state.zids)

abbrev key_count : Zval → ℕ
key_count (string s) = 1
key_count (array es) = count es
key_count _ = 0

-- pcbc_pp_keycount
unfoldable pub keycount : PpState → ℕ
keycount state = key_count state.zids

-- The first loop of pcbc_pp_next: every variable gets its base value.
set_base : List StateArg → List StateArg
set_base = map {B = StateArg} (λ a. record a { out = defined a.val })

override : Option Zval → StateArg → StateArg
override none a = a
override (some z) a = record a { out = some z }

-- What pcbc_pp_next does: it has stored an id and moved on, it has none left, or it takes a string
-- from a value that is none, which is undefined behaviour.
pub data Step : Type 0 where
  item done : PpState → Step
  stray : Step

module _ (fetch : Entries → Bytes → Option Zval) where
  -- The second loop: options that are given for one id alone.
  set_own : Entries → List StateArg → List StateArg
  unfolding override
  set_own es = map (λ a. override (fetch es a.name) a)

  own_options : Zval → List StateArg → List StateArg
  own_options (array es) args = set_own es args
  own_options _ args = args

  -- One bucket of the array of ids.
  next_entry : PpState → Key → Zval → Entries → Step
  next_entry state (str k) z rest =
      item (record state { id = k; args = own_options z state.args; hash_pos = rest })
  next_entry state (num i) (string s) rest = item (record state { id = s; hash_pos = rest })
  next_entry state (num i) _ rest = stray

  next_array : PpState → Entries → Step
  next_array state end = done state
  next_array state (entry k z rest) = next_entry state k z rest

  next_ids : PpState → Zval → Step
  next_ids state (array es) = next_array state state.hash_pos
  next_ids state (string s) =
      if ltb 0 state.cur_idx
      then done state
      else item (record state { id = s; cur_idx = state.cur_idx + 1 })
  next_ids state _ = done state

  -- pcbc_pp_next. `args` leaves out the first argument, the id.
  unfoldable pub next : PpState → Step
  unfolding set_base set_own own_options next_entry next_array next_ids
  next state = next_ids (record state { args = set_base state.args }) state.zids
