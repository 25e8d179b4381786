-- ===== src/MutationState/Sources.antt =====
-- mutation_state.c: the methods, on objects and arrays of them.
use php_couchbase.Base.{
  ℕ, ◌≡◌, refl, inl, inr, Bool, true, false, ◌&&◌, ◌⊎◌, ◌↔◌, subst, Option, none, some,
  Option-cases,
}
use php_couchbase.Zval.{
  Zval, Entries, end, entry, undef, null, bool, long, double, string, array, object,
}
use php_couchbase.MutationToken.{MutationToken}
use php_couchbase.MutationState.{
  MutationState, Source, token, document, fragment, other, Pending, add_property, add_object,
  add_zval, add_entry, add_entries, add,
}
use php_couchbase.MutationState.Tokens.{Counts, add_token-Counts}

add_property-Counts :
    (state : MutationState) (t : Option MutationToken)
    → Counts state
    → Counts (add_property state t)
unfolding add_property
add_property-Counts state none c = c
add_property-Counts state (some t) c = add_token-Counts state t c

add_object-Counts : (p : Pending) (source : Source) → Counts p.0 → Counts (add_object p source).0
unfolding add_object
add_object-Counts (state, thrown) (token t) c = add_token-Counts state t c
add_object-Counts (state, thrown) (document t) c = add_property-Counts state t c
add_object-Counts (state, thrown) (fragment t) c = add_property-Counts state t c
add_object-Counts (state, thrown) other c = c

-- A property of a pending state, of a result that is not undefined.
OnResult : (MutationState → Type 0) → Option Pending → Type 0
OnResult P none = Unit
OnResult P (some p) = P p.0

-- An entry that ADD_TOKEN_FROM_ZVAL can take.
abbrev pub is_source : Zval → Bool
is_source undef = true
is_source (object n) = true
is_source _ = false

abbrev pub all_sources : Entries → Bool
all_sources end = true
all_sources (entry k v rest) = is_source v && all_sources rest

module _ (source_of : ℕ → Source) where
  add_entry-Counts :
      (p : Pending) (z : Zval) → Counts p.0 → OnResult Counts (add_entry source_of p z)
  unfolding add_entry add_zval OnResult
  add_entry-Counts p (object n) c = add_object-Counts p (source_of n) c
  add_entry-Counts p undef c = c
  add_entry-Counts p null c = tt
  add_entry-Counts p (bool b) c = tt
  add_entry-Counts p (long n) c = tt
  add_entry-Counts p (double n) c = tt
  add_entry-Counts p (string b) c = tt
  add_entry-Counts p (array es) c = tt

  add_entries-Counts :
      (p : Pending) (es : Entries) → Counts p.0 → OnResult Counts (add_entries source_of p es)
  unfolding add_entries
  add_entries-Counts p end c = unfold OnResult in c
  add_entries-Counts p (entry k v rest) c = elim (Option-cases (add_entry source_of p v)) [
    | inl e ↦ rw (add_entries, e) (unfold OnResult in tt)
    | inr (q, e) ↦
        let cq : OnResult Counts (some q) = subst (OnResult Counts) e (add_entry-Counts p v c) in
        rw (add_entries, e) (add_entries-Counts q rest (unfold OnResult in cq))
  ]

  add-OnResult :
      (state : MutationState) (source : Zval)
      → Counts state
      → OnResult Counts (add source_of state source)
  unfolding add add_zval OnResult
  add-OnResult state (object n) c = add_object-Counts (state, false) (source_of n) c
  add-OnResult state (array es) c = add_entries-Counts (state, false) es c
  add-OnResult state undef c = c
  add-OnResult state null c = c
  add-OnResult state (bool b) c = c
  add-OnResult state (long n) c = c
  add-OnResult state (double n) c = c
  add-OnResult state (string b) c = c

  -- The state that MutationState::add leaves counts its tokens, if the state before did, whatever
  -- the argument is.
  pub add-Counts :
      (state : MutationState) (source : Zval) (p : Pending)
      → Counts state
      → add source_of state source ≡ some p
      → Counts p.0
  add-Counts state source p c e =
      let on : OnResult Counts (some p) = subst (OnResult Counts) e (add-OnResult state source c) in
      unfold OnResult in on

  add_entry-is_source :
      (p : Pending) (z : Zval)
      → ((is_source z ≡ true) × ((q : Pending) × (add_entry source_of p z ≡ some q)))
        ⊎ ((is_source z ≡ false) × (add_entry source_of p z ≡ none))
  unfolding add_entry add_zval
  add_entry-is_source p (object n) = inl (refl, (add_object p (source_of n), refl))
  add_entry-is_source p undef = inl (refl, (p, refl))
  add_entry-is_source p null = inr (refl, refl)
  add_entry-is_source p (bool b) = inr (refl, refl)
  add_entry-is_source p (long n) = inr (refl, refl)
  add_entry-is_source p (double n) = inr (refl, refl)
  add_entry-is_source p (string b) = inr (refl, refl)
  add_entry-is_source p (array es) = inr (refl, refl)

  add_entries-undefined :
      (p : Pending) (es : Entries) → (add_entries source_of p es ≡ none) ↔ (all_sources es ≡ false)
  unfolding add_entries
  add_entries-undefined p end = ((λ e. cc), (λ e. cc))
  add_entries-undefined p (entry k v rest) = elim (add_entry-is_source p v) [
    | inl (s, (q, e)) ↦ rw (s, add_entries, e) (add_entries-undefined q rest)
    | inr (s, e) ↦ rw (s, add_entries, e) ((λ h. refl), (λ h. refl))
  ]

  -- MutationState::add of an array is undefined exactly if an entry is neither an object nor
  -- undefined.
  pub add-undefined :
      (state : MutationState) (es : Entries)
      → (add source_of state (array es) ≡ none) ↔ (all_sources es ≡ false)
  unfolding add
  add-undefined state es = add_entries-undefined (state, false) es
