-- ===== src/MutationState.antt =====
-- src/couchbase/mutation_state.c: the tokens that a query waits for. The `next` links are the order
-- of the list `tokens`, whose ends are `head` and `tail`; the place of a token in it stands for its
-- address. The children Tokens and Order have the theorems on pcbc_add_token, Sources those on the
-- methods, and Export those on the form for the search service. Vectors is
-- the form for N1QL.
pub mod Tokens
pub mod Order
pub mod Sources
pub mod Export
pub mod Vectors
use php_couchbase.Base.{
  ℕ, zero, suc, ◌+◌, ◌/◌, ◌%◌, ◌^◌, Bool, true, false, List, [], ◌∷◌, ◌++◌, Option, none, some,
  Bytes, bytes_eq, ◌==◌, ◌&&◌, ltb, if◌then◌else◌,
}
use php_couchbase.Zval.{Zval, Entries, end, entry, undef, array, object}
use php_couchbase.Decimal.{decimal}
use php_couchbase.MutationToken.{Mt, MutationToken, estrdup}

-- pcbc_mutation_state_t; `ntokens` is the 32-bit pattern of an int.
pub record MutationState : Type 0 where
  pub ntokens : ℕ
  pub tokens : List MutationToken

-- pcbc_mutation_state_init
unfoldable pub init : MutationState
init = record { ntokens = 0; tokens = [] }

-- The outer test of the loop, in which the vbucket of `t` is compared with itself.
unfoldable pub matches : MutationToken → MutationToken → Bool
matches t token = t.vb == t.vb && bytes_eq t.bucket token.bucket

unfoldable pub is_older : MutationToken → MutationToken → Bool
unfolding matches
is_older t token = matches t token && ltb t.seq token.seq

unfoldable pub is_held : MutationToken → MutationToken → Bool
unfolding matches
is_held t token = matches t token && (t.seq == token.seq && t.id == token.id)

-- What the loop finds: the token itself, which ends the function, or the place in `new_token`.
pub data Search : Type 0 where
  present : Search
  place : Option ℕ → Search

-- The loop, from the place `at` on, with `new_token` so far.
scan : List MutationToken → ℕ → Option ℕ → MutationToken → Search
unfolding is_older is_held
scan [] at new_token token = place new_token
scan (t ∷ rest) at new_token token =
    let later = scan rest (at + 1) (if is_older t token then some at else new_token) token in
    if is_held t token then present else later

-- The three assignments at the end, to the token at the place `target`; `at` is the place of the
-- list's first token.
overwrite : List MutationToken → ℕ → ℕ → Mt → List MutationToken
overwrite [] at target mt = []
overwrite (t ∷ rest) at target mt =
    let later = overwrite rest (at + 1) target mt in
    if at == target then record t { mt = mt } ∷ rest else t ∷ later

store_token : MutationState → MutationToken → Search → MutationState
unfolding overwrite estrdup
store_token state token present = state
store_token state token (place none) = record {
  ntokens = (state.ntokens + 1) % 2 ^ 32;
  tokens = state.tokens ++ record { bucket = estrdup token.bucket; mt = token.mt } ∷ [];
}
store_token state token (place (some target)) = record state {
  tokens = overwrite state.tokens 0 target token.mt;
}

-- pcbc_add_token
unfoldable pub add_token : MutationState → MutationToken → MutationState
unfolding scan store_token
add_token state token = store_token state token (scan state.tokens 0 none token)

-- An object under the class tests of ADD_TOKEN_FROM_ZVAL. A document or a fragment comes with its
-- property `token`, if that is a token.
pub data Source : Type 0 where
  token : MutationToken → Source
  document fragment : Option MutationToken → Source
  other : Source

-- The state, and whether an exception is pending. The method goes on after an exception.
abbrev pub Pending : Type 0
Pending = MutationState × Bool

add_property : MutationState → Option MutationToken → MutationState
unfolding add_token
add_property state none = state
add_property state (some t) = add_token state t

-- ADD_TOKEN_FROM_ZVAL of an object.
add_object : Pending → Source → Pending
unfolding add_token add_property
add_object (state, thrown) (token t) = (add_token state t, thrown)
add_object (state, thrown) (document t) = (add_property state t, thrown)
add_object (state, thrown) (fragment t) = (add_property state t, thrown)
add_object (state, thrown) other = (state, true)

module _ (source_of : ℕ → Source) where
  -- ADD_TOKEN_FROM_ZVAL, with the object that a handle stands for. It follows the object pointer of
  -- any value: `none` is undefined behaviour.
  add_zval : Pending → Zval → Option Pending
  unfolding add_object
  add_zval p (object n) = some (add_object p (source_of n))
  add_zval p _ = none

  add_entry : Pending → Zval → Option Pending
  unfolding add_zval
  add_entry p undef = some p
  add_entry p v = add_zval p v

  -- ZEND_HASH_FOREACH_VAL, which skips undefined values.
  add_entries : Pending → Entries → Option Pending
  unfolding add_entry
  add_entries p end = some p
  add_entries p (entry k v rest) = elim (add_entry p v) [
    | none ↦ none
    | some q ↦ add_entries q rest
  ]

  -- MutationState::add. A value of another type is an exception.
  unfoldable pub add : MutationState → Zval → Option Pending
  unfolding add_zval add_entries
  add state (object n) = add_zval (state, false) (object n)
  add state (array es) = add_entries (state, false) es
  add state _ = some (state, true)

  -- MutationState::from
  unfoldable pub from : Zval → Option Pending
  unfolding init add
  from source = add init source

-- The key of a token for the search service. Its length is given with the terminator, which thereby
-- becomes part of the key.
unfoldable pub search_key : MutationToken → Bytes
unfolding decimal
search_key t = decimal t.vb ++ b'/' ∷ decimal t.id ++ 0 ∷ []

-- add_assoc_long_ex
unfoldable pub update_long : Bytes → ℕ → List (Bytes × ℕ) → List (Bytes × ℕ)
update_long key n [] = (key, n) ∷ []
update_long key n ((k, m) ∷ rest) =
    let later = update_long key n rest in if bytes_eq k key then (k, n) ∷ rest else (k, m) ∷ later

export_loop : List MutationToken → List (Bytes × ℕ) → List (Bytes × ℕ)
unfolding update_long search_key
export_loop [] scan_vectors = scan_vectors
export_loop (t ∷ rest) scan_vectors =
    export_loop rest (update_long (search_key t) t.seq scan_vectors)

-- pcbc_mutation_state_export_for_search
unfoldable pub export_for_search : MutationState → List (Bytes × ℕ)
unfolding export_loop
export_for_search obj = export_loop obj.tokens []
