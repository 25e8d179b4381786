-- ===== src/Subdoc/MutateIn.antt =====
-- src/couchbase/mutate_in_builder.c. A method gives the builder that it leaves, and whether it
-- returns the object (else null).
pub mod Built
pub mod Multivalue
use php_couchbase.Base.{
  ℕ, zero, suc, ◌+◌, ◌%◌, ◌^◌, Bool, true, false, List, [], ◌∷◌, ◌++◌, Option, none, some, Bytes,
  ltb, leb, ◌==◌, ◌&&◌, ◌||◌, if◌then◌else◌,
}
use php_couchbase.Decimal.{signed_decimal}
use php_couchbase.Zval.{Zval}
use php_couchbase.Subdoc.{
  SdCmd, sd_remove, sd_counter, sd_dict_add, sd_dict_upsert, sd_replace, sd_array_insert,
  sd_array_add_unique, sd_array_add_first, sd_array_add_last, SdFlags, SdSpec, SubdocEnv,
  options_to_flags,
}

-- pcbc_mutate_in_builder_t; `nspecs` is the 32-bit pattern of an int.
pub record MutateInBuilder : Type 0 where
  pub id : Bytes
  pub cas : ℕ
  pub nspecs : ℕ
  pub specs : List SdSpec

-- pcbc_mutate_in_builder_init
unfoldable pub init : Bytes → ℕ → MutateInBuilder
init id cas = record { id = id; cas = cas; nspecs = 0; specs = [] }

unfoldable pub push_spec : MutateInBuilder → SdSpec → MutateInBuilder
push_spec builder spec = record builder {
  nspecs = (builder.nspecs + 1) % 2 ^ 32;
  specs = builder.specs ++ spec ∷ [];
}

-- isspace, in the C locale.
abbrev pub is_space : ℕ → Bool
is_space c = c == b' ' || leb 9 c && leb c 13

-- The two loops that move over spaces, from the front and from the back.
unfoldable pub trim_left : Bytes → Bytes
trim_left [] = []
trim_left (c ∷ s) = let rest = trim_left s in if is_space c then rest else c ∷ s

drop_space : ℕ → Bytes → Bytes
drop_space c [] = if is_space c then [] else c ∷ []
drop_space c (d ∷ s) = c ∷ d ∷ s

unfoldable pub trim_right : Bytes → Bytes
unfolding drop_space
trim_right [] = []
trim_right (c ∷ s) = drop_space c (trim_right s)

-- `p++; n -= 2`, if the last byte is a closing bracket and there is a byte before it.
unfoldable pub before_bracket : Bytes → Option Bytes
before_bracket [] = none
before_bracket (c ∷ []) = if c == b']' then some [] else none
before_bracket (c ∷ d ∷ s) = elim (before_bracket (d ∷ s)) [ none ↦ none | some r ↦ some (c ∷ r) ]

-- The body is not empty: `n < 3` is refused.
body_of : Option Bytes → Option Bytes
body_of (some (c ∷ s)) = some (c ∷ s)
body_of _ = none

inside : Bytes → Option Bytes
unfolding before_bracket body_of
inside [] = none
inside (c ∷ s) = if c == b'[' then body_of (before_bracket s) else none

-- The text between the brackets of a JSON array that is not empty; `none` is an error.
unfoldable pub multi_value : Bytes → Option Bytes
unfolding inside trim_left trim_right
multi_value buf = inside (trim_right (trim_left buf))

module _ (env : SubdocEnv) where
  spec_of : SdCmd → SdFlags → Bytes → Option Bytes → SdSpec
  spec_of sdcmd flags path value = record {
    sdcmd = sdcmd;
    options = flags;
    path = path;
    value = value;
  }

  -- pcbc_mutate_in_builder_remove
  unfoldable pub builder_remove : MutateInBuilder → Bytes → SdFlags → MutateInBuilder
  unfolding push_spec spec_of
  builder_remove builder path flags = push_spec builder (spec_of sd_remove flags path none)

  set_value : SdCmd → MutateInBuilder → Bytes → SdFlags → Option Bytes → MutateInBuilder × Bool
  unfolding push_spec spec_of
  set_value sdcmd builder path flags none = (builder, false)
  set_value sdcmd builder path flags (some v) =
      (push_spec builder (spec_of sdcmd flags path (some v)), true)

  -- The text that pcbc_mutate_in_builder_upsert, _replace, _array_add_unique, _array_prepend and
  -- _array_append repeat, and insert and arrayInsert too: false is FAILURE.
  unfoldable pub builder_put :
      SdCmd → MutateInBuilder → Bytes → Zval → SdFlags → MutateInBuilder × Bool
  unfolding set_value
  builder_put sdcmd builder path value flags =
      set_value sdcmd builder path flags (env.json_encode value)

  and_strip : Option Bytes → Option Bytes
  unfolding multi_value
  and_strip none = none
  and_strip (some buf) = multi_value buf

  -- The text of arrayInsertAll, arrayPrependAll and arrayAppendAll.
  unfoldable pub builder_put_all :
      SdCmd → MutateInBuilder → Bytes → Zval → SdFlags → MutateInBuilder × Bool
  unfolding set_value and_strip
  builder_put_all sdcmd builder path value flags =
      set_value sdcmd builder path flags (and_strip (env.json_encode value))

  -- MutateInBuilder::remove, counter, insert and so on.
  unfoldable pub remove : MutateInBuilder → Bytes → Option Zval → MutateInBuilder × Bool
  unfolding builder_remove
  remove builder path options =
      (builder_remove builder path (options_to_flags env false options), true)

  unfoldable pub counter : MutateInBuilder → Bytes → ℕ → Option Zval → MutateInBuilder × Bool
  unfolding set_value
  counter builder path delta options =
      set_value sd_counter builder path (options_to_flags env false options)
        (some (signed_decimal delta))

  unfoldable pub insert : MutateInBuilder → Bytes → Zval → Option Zval → MutateInBuilder × Bool
  unfolding builder_put
  insert builder path value options =
      builder_put sd_dict_add builder path value (options_to_flags env false options)

  unfoldable pub upsert : MutateInBuilder → Bytes → Zval → Option Zval → MutateInBuilder × Bool
  unfolding builder_put
  upsert builder path value options =
      builder_put sd_dict_upsert builder path value (options_to_flags env false options)

  unfoldable pub replace : MutateInBuilder → Bytes → Zval → Option Zval → MutateInBuilder × Bool
  unfolding builder_put
  replace builder path value options =
      builder_put sd_replace builder path value (options_to_flags env false options)

  unfoldable pub array_insert :
      MutateInBuilder → Bytes → Zval → Option Zval → MutateInBuilder × Bool
  unfolding builder_put
  array_insert builder path value options =
      builder_put sd_array_insert builder path value (options_to_flags env false options)

  unfoldable pub array_insert_all :
      MutateInBuilder → Bytes → Zval → Option Zval → MutateInBuilder × Bool
  unfolding builder_put_all
  array_insert_all builder path value options =
      builder_put_all sd_array_insert builder path value (options_to_flags env false options)

  unfoldable pub array_add_unique :
      MutateInBuilder → Bytes → Zval → Option Zval → MutateInBuilder × Bool
  unfolding builder_put
  array_add_unique builder path value options =
      builder_put sd_array_add_unique builder path value (options_to_flags env false options)

  -- arrayPrepend does not look at the result.
  unfoldable pub array_prepend :
      MutateInBuilder → Bytes → Zval → Option Zval → MutateInBuilder × Bool
  unfolding builder_put
  array_prepend builder path value options = (
    (builder_put sd_array_add_first builder path value (options_to_flags env false options)).0,
    true,
  )

  unfoldable pub array_prepend_all :
      MutateInBuilder → Bytes → Zval → Option Zval → MutateInBuilder × Bool
  unfolding builder_put_all
  array_prepend_all builder path value options =
      builder_put_all sd_array_add_first builder path value (options_to_flags env false options)

  unfoldable pub array_append :
      MutateInBuilder → Bytes → Zval → Option Zval → MutateInBuilder × Bool
  unfolding builder_put
  array_append builder path value options =
      builder_put sd_array_add_last builder path value (options_to_flags env false options)

  unfoldable pub array_append_all :
      MutateInBuilder → Bytes → Zval → Option Zval → MutateInBuilder × Bool
  unfolding builder_put_all
  array_append_all builder path value options =
      builder_put_all sd_array_add_last builder path value (options_to_flags env false options)
