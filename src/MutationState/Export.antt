-- ===== src/MutationState/Export.antt =====
-- mutation_state.c: the sequence numbers that the search service gets.
use php_couchbase.Base.{
  ℕ, ◌<◌, ◌≡◌, ◌≢◌, refl, ap, ◌∙◌, inl, inr, List, [], ◌∷◌, Option, none, some, arith, Bytes, All,
  bytes_eq, bytes_eq_refl, bytes_eq_apart, bytes_eq_sound, if◌then◌else◌, Bool-cases,
}
use php_couchbase.MutationToken.{MutationToken}
use php_couchbase.MutationState.{
  MutationState, init, add_token, search_key, update_long, export_loop, export_for_search,
}
use php_couchbase.MutationState.Order.{older-kept}

-- The value under a key.
abbrev pub find_long : Bytes → List (Bytes × ℕ) → Option ℕ
find_long key [] = none
find_long key ((k, n) ∷ rest) = if bytes_eq k key then some n else find_long key rest

find-update_long :
    (key k : Bytes) (n : ℕ) (l : List (Bytes × ℕ))
    → find_long key (update_long k n l) ≡ (if bytes_eq k key then some n else find_long key l)
unfolding update_long
find-update_long key k n [] = refl
find-update_long key k n ((j, m) ∷ l) = elim (Bool-cases (bytes_eq j k)) [
  | inl e ↦ let same : j ≡ k = bytes_eq_sound j k e in rw (e, same) (ground arith)
  | inr e ↦ elim (Bool-cases (bytes_eq j key)) [
    | inl f ↦ rw (e, f, bytes_eq_apart j k key e f) refl
    | inr f ↦ rw (e, f) (find-update_long key k n l)
  ]
]

-- The sequence number of the last token with the key, `m` if there is none.
abbrev pub last_seq : Bytes → List MutationToken → Option ℕ → Option ℕ
last_seq key [] m = m
last_seq key (t ∷ rest) m =
    last_seq key rest (if bytes_eq (search_key t) key then some t.seq else m)

find-export_loop :
    (key : Bytes) (ts : List MutationToken) (l : List (Bytes × ℕ))
    → find_long key (export_loop ts l) ≡ last_seq key ts (find_long key l)
unfolding export_loop
find-export_loop key [] l = refl
find-export_loop key (t ∷ ts) l =
    find-export_loop key ts (update_long (search_key t) t.seq l)
    ∙ ap (last_seq key ts) (find-update_long key (search_key t) t.seq l)

-- Under each key, pcbc_mutation_state_export_for_search has the sequence number of the last token
-- of the state with that key, and nothing if there is none.
pub find-export_for_search :
    (key : Bytes) (state : MutationState)
    → find_long key (export_for_search state) ≡ last_seq key state.tokens none
unfolding export_for_search
find-export_for_search key state = find-export_loop key state.tokens []

-- Of two tokens of one bucket, vbucket and id that are added with the newer one first, the older
-- one is exported.
pub export-older :
    (a b : MutationToken)
    → All (λ c. c ≢ 0) a.bucket
    → a.bucket ≡ b.bucket
    → search_key a ≡ search_key b
    → b.seq < a.seq
    → find_long (search_key a) (export_for_search (add_token (add_token init a) b)) ≡ some b.seq
export-older a b z same key lt =
    find-export_for_search (search_key a) (add_token (add_token init a) b)
    ∙ rw (older-kept a b z same lt, key, bytes_eq_refl (search_key b)) refl
