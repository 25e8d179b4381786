-- ===== src/Examples/States.antt =====
-- mutation_state.c.
use php_couchbase.Base.{
  ℕ, zero, suc, ◌++◌, ◌≡◌, refl, true, false, [], ◌∷◌, none, some, codes, arith,
}
use php_couchbase.Zval.{Entries, end, entry, num, array, object}
use php_couchbase.MutationToken.{MutationToken}
use php_couchbase.MutationState.{
  MutationState, init, add_token, Source, token, document, other, add, from, search_key,
  export_for_search,
}
use php_couchbase.MutationState.Tokens.{holds, add_token-holds, Counts}
use php_couchbase.MutationState.Sources.{add-Counts}
use php_couchbase.MutationState.Export.{find_long, last_seq, find-export_for_search}

abbrev token_of : ℕ → ℕ → ℕ → MutationToken
token_of vb id seq = record { bucket = codes "b"; mt = record { id = id; seq = seq; vb = vb } }

-- One token; then two of different vbuckets, the newer one first.
abbrev one : MutationState
one = add_token init (token_of 1 70 5)

abbrev two : MutationState
two = add_token one (token_of 2 80 3)

abbrev source_of : ℕ → Source
source_of zero = token (token_of 1 70 5)
source_of (suc zero) = document (some (token_of 2 80 3))
source_of (suc (suc zero)) = document none
source_of _ = other

abbrev objects : Entries
objects = entry (num 0) (object 0) (entry (num 1) (object 1) (entry (num 2) (object 2) end))

from-objects : from source_of (array objects) ≡ some (two, false)
unfolding from add init
from-objects = refl

key_of_token : search_key (token_of 1023 70 5) ≡ codes "1023/70" ++ 0 ∷ []
unfolding search_key
key_of_token = refl

add_token-holds_example : holds (add_token two (token_of 2 80 9)).tokens (token_of 2 80 9) ≡ true
add_token-holds_example = add_token-holds two (token_of 2 80 9) ((λ e. omega (arith, e)), tt)

init-Counts : Counts init
unfolding init
init-Counts = refl

add-objects : add source_of init (array objects) ≡ some (two, false)
unfolding add init
add-objects = refl

add-Counts_example : Counts two
add-Counts_example = add-Counts source_of init (array objects) (two, false) init-Counts add-objects

find-export_for_search_example :
    find_long (search_key (token_of 2 80 3)) (export_for_search two)
    ≡ last_seq (search_key (token_of 2 80 3)) two.tokens none
find-export_for_search_example = find-export_for_search (search_key (token_of 2 80 3)) two
