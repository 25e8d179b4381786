-- ===== src/MutationState/Vectors.antt =====
-- mutation_state.c: the scan vectors that N1QL gets, a group of vbuckets for each bucket.
use php_couchbase.Base.{
  ℕ, ◌≡◌, refl, ap, ◌∙◌, inl, inr, List, [], ◌∷◌, Option, none, some, arith, Bytes, bytes_eq,
  bytes_eq_apart, bytes_eq_sound, if◌then◌else◌, Bool-cases,
}
use php_couchbase.Decimal.{decimal}
use php_couchbase.Zval.{Zval, Entries, str, num, string, long, array, end, entry}
use php_couchbase.MutationToken.{MutationToken, estrdup}
use php_couchbase.MutationState.{MutationState}

-- A PHP array as a map from its keys, in order: zend_hash_str_update and the lookup.
module _ {ℓ} {A : Type ℓ} where
  unfoldable pub put : Bytes → A → List (Bytes × A) → List (Bytes × A)
  put key x [] = (key, x) ∷ []
  put key x ((k, y) ∷ rest) =
      let later = put key x rest in if bytes_eq k key then (k, x) ∷ rest else (k, y) ∷ later

  unfoldable pub find_put : Bytes → List (Bytes × A) → Option A
  find_put key [] = none
  find_put key ((k, x) ∷ rest) =
      let later = find_put key rest in if bytes_eq k key then some x else later

  find_put-put :
      (key k : Bytes) (x : A) (l : List (Bytes × A))
      → find_put key (put k x l) ≡ (if bytes_eq k key then some x else find_put key l)
  unfolding put find_put
  find_put-put key k x [] = refl
  find_put-put key k x ((j, y) ∷ l) = elim (Bool-cases (bytes_eq j k)) [
    | inl e ↦ let same : j ≡ k = bytes_eq_sound j k e in rw (e, same) (ground arith)
    | inr e ↦ elim (Bool-cases (bytes_eq j key)) [
      | inl f ↦ rw (e, f, bytes_eq_apart j k key e f) refl
      | inr f ↦ rw (e, f) (find_put-put key k x l)
    ]
  ]

-- The sequence number and the text of the id, under the text of the vbucket.
abbrev pub Group : Type 0
Group = List (Bytes × (ℕ × Bytes))

abbrev pub pair_of : MutationToken → ℕ × Bytes
pair_of t = (t.seq, decimal t.id)

group_with : MutationToken → Option Group → Group
unfolding put
group_with t none = (decimal t.vb, pair_of t) ∷ []
group_with t (some g) = put (decimal t.vb) (pair_of t) g

-- One round of the loop.
add_vector : MutationToken → List (Bytes × Group) → List (Bytes × Group)
unfolding put find_put group_with
add_vector t vectors =
    put (estrdup t.bucket) (group_with t (find_put (estrdup t.bucket) vectors)) vectors

vector_loop : List MutationToken → List (Bytes × Group) → List (Bytes × Group)
unfolding add_vector
vector_loop [] vectors = vectors
vector_loop (t ∷ rest) vectors = vector_loop rest (add_vector t vectors)

-- pcbc_mutation_state_export_for_n1ql
unfoldable pub export_for_n1ql : MutationState → List (Bytes × Group)
unfolding vector_loop
export_for_n1ql obj = vector_loop obj.tokens []

-- The same as the PHP array.
pair_zval : ℕ × Bytes → Zval
pair_zval (seq, id) = array (entry (num 0) (long seq) (entry (num 1) (string id) end))

group_entries : Group → Entries
unfolding pair_zval
group_entries [] = end
group_entries ((vb, pair) ∷ rest) = entry (str vb) (pair_zval pair) (group_entries rest)

unfoldable pub vector_entries : List (Bytes × Group) → Entries
unfolding group_entries
vector_entries [] = end
vector_entries ((bucket, group) ∷ rest) =
    entry (str bucket) (array (group_entries group)) (vector_entries rest)

-- What the vectors hold for a bucket and a vbucket.
abbrev in_group : Bytes → Option Group → Option (ℕ × Bytes)
in_group vb none = none
in_group vb (some g) = find_put vb g

abbrev pub find_vector : Bytes → Bytes → List (Bytes × Group) → Option (ℕ × Bytes)
find_vector bucket vb vectors = in_group vb (find_put bucket vectors)

-- The last of the tokens that is of the bucket and the vbucket.
abbrev pub last_pair : Bytes → Bytes → List MutationToken → Option (ℕ × Bytes) → Option (ℕ × Bytes)
last_pair bucket vb [] old = old
last_pair bucket vb (t ∷ rest) old = last_pair bucket vb rest (
    if bytes_eq (estrdup t.bucket) bucket
    then (if bytes_eq (decimal t.vb) vb then some (pair_of t) else old)
    else old)

in_group-group_with :
    (vb : Bytes) (t : MutationToken) (g : Option Group)
    → in_group vb (some (group_with t g))
      ≡ (if bytes_eq (decimal t.vb) vb then some (pair_of t) else in_group vb g)
unfolding group_with find_put
in_group-group_with vb t none = refl
in_group-group_with vb t (some g) = find_put-put vb (decimal t.vb) (pair_of t) g

find_vector-add_vector :
    (bucket vb : Bytes) (t : MutationToken) (vectors : List (Bytes × Group))
    → find_vector bucket vb (add_vector t vectors) ≡ (
        if bytes_eq (estrdup t.bucket) bucket
        then (if bytes_eq (decimal t.vb) vb
            then some (pair_of t)
            else find_vector bucket vb vectors)
        else find_vector bucket vb vectors)
unfolding add_vector
find_vector-add_vector bucket vb t vectors =
    ap (in_group vb) (find_put-put bucket (estrdup t.bucket) _ vectors)
    ∙ elim (Bool-cases (bytes_eq (estrdup t.bucket) bucket)) [
      | inl e ↦
          let same : estrdup t.bucket ≡ bucket = bytes_eq_sound (estrdup t.bucket) bucket e in
          rw (e, same) (in_group-group_with vb t (find_put bucket vectors))
      | inr e ↦ rw e refl
    ]

find_vector-loop :
    (bucket vb : Bytes) (ts : List MutationToken) (vectors : List (Bytes × Group))
    → find_vector bucket vb (vector_loop ts vectors)
      ≡ last_pair bucket vb ts (find_vector bucket vb vectors)
unfolding vector_loop
find_vector-loop bucket vb [] vectors = refl
find_vector-loop bucket vb (t ∷ ts) vectors =
    find_vector-loop bucket vb ts (add_vector t vectors)
    ∙ ap (last_pair bucket vb ts) (find_vector-add_vector bucket vb t vectors)

-- For each bucket and vbucket, pcbc_mutation_state_export_for_n1ql has the sequence number and the id
-- of the last token of the state that is of them, and nothing if there is none.
pub find_vector-export_for_n1ql :
    (bucket vb : Bytes) (state : MutationState)
    → find_vector bucket vb (export_for_n1ql state) ≡ last_pair bucket vb state.tokens none
unfolding export_for_n1ql find_put
find_vector-export_for_n1ql bucket vb state = find_vector-loop bucket vb state.tokens []
