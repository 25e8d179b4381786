-- ===== src/OpCookie.antt =====
-- opcookie.c: the results that the callbacks of one operation leave, in a linked list. A result's
-- address is its index in `nodes`, the memory that the callbacks allocate; `next` and the two ends
-- of the list are addresses. The payload `A` stands for the fields behind the common header.
pub mod Chain
pub mod Linked
pub mod Destroy
pub mod Delivered
use php_couchbase.Base.{
  ℕ, zero, suc, ◌+◌, List, [], ◌∷◌, ◌++◌, Option, none, some, ◌&&◌, not, length, get_elem?, ◌==◌,
  if◌then◌else◌,
}

-- lcb_error_t: LCB_SUCCESS is 0.
abbrev pub lcb_success : ℕ
lcb_success = 0

-- opcookie_res, with the fields of the structure that it heads.
pub record Res {ℓ} (A : Type ℓ) : Type ℓ where
  pub next : Option ℕ
  pub err : ℕ
  pub payload : A

-- opcookie: the list's ends and the first error.
pub record OpCookie {ℓ} (A : Type ℓ) : Type ℓ where
  pub nodes : List (Res A)
  pub res_head : Option ℕ
  pub res_tail : Option ℕ
  pub first_error : ℕ

-- `res_head` after a push.
abbrev or_else : Option ℕ → ℕ → Option ℕ
or_else none res = some res
or_else (some head) res = some head

module _ {ℓ} {A : Type ℓ} where
  -- opcookie_init
  unfoldable pub init : OpCookie A
  init = record { nodes = []; res_head = none; res_tail = none; first_error = lcb_success }

  -- opcookie_get_first_error
  unfoldable pub get_first_error : OpCookie A → ℕ
  get_first_error cookie = cookie.first_error

  -- `nodes[at].next = target`
  pub set_next : List (Res A) → ℕ → Option ℕ → List (Res A)
  set_next [] at target = []
  set_next (r ∷ rs) zero target = record r { next = target } ∷ rs
  set_next (r ∷ rs) (suc at) target = r ∷ set_next rs at target

  -- The result that a callback allocates, before it is linked; `ecalloc` clears `next`.
  abbrev new_res : ℕ → A → Res A
  new_res err payload = record { next = none; err = err; payload = payload }

  -- The two cases of `res_head == NULL`: the tail's `next` is written in the second.
  link : Option ℕ → Option ℕ → List (Res A) → ℕ → List (Res A)
  link none tail nodes res = nodes
  link (some head) none nodes res = nodes
  link (some head) (some tail) nodes res = set_next nodes tail (some res)

  -- opcookie_push, of a result that is allocated at the end of the memory.
  unfoldable pub push : OpCookie A → ℕ → A → OpCookie A
  unfolding link set_next
  push cookie err payload =
      let res = length cookie.nodes in
      record {
        nodes = link cookie.res_head cookie.res_tail cookie.nodes res ++ new_res err payload ∷ [];
        res_head = or_else cookie.res_head res;
        res_tail = some res;
        first_error =
            if not (err == lcb_success) && cookie.first_error == lcb_success
            then err
            else cookie.first_error;
      }

  -- opcookie_next_res
  next_res : OpCookie A → Option ℕ → Option ℕ
  next_res cookie none = cookie.res_head
  next_res cookie (some cur) = elim (get_elem? cookie.nodes cur) [ none ↦ none | some r ↦ r.next ]

  -- FOREACH_OPCOOKIE_RES on fuel: the header and the payload of each result that it visits.
  foreach : ℕ → OpCookie A → Option ℕ → List (ℕ × A)
  foreach zero cookie cur = []
  foreach (suc fuel) cookie cur = elim (next_res cookie cur) [
    | none ↦ []
    | some res ↦ elim (get_elem? cookie.nodes res) [
      | none ↦ []
      | some r ↦ (r.err, r.payload) ∷ foreach fuel cookie (some res)
    ]
  ]

  -- The loop from `Res = NULL`, with a round more than there are results.
  unfoldable pub results : OpCookie A → List (ℕ × A)
  unfolding foreach next_res
  results cookie = foreach (suc (length cookie.nodes)) cookie none

  -- The loop of opcookie_destroy, on fuel: the addresses that it frees, in order.
  free_from : ℕ → List (Res A) → Option ℕ → List ℕ
  free_from zero nodes iter = []
  free_from (suc fuel) nodes none = []
  free_from (suc fuel) nodes (some cur) = elim (get_elem? nodes cur) [
    | none ↦ []
    | some r ↦ cur ∷ free_from fuel nodes r.next
  ]

  -- opcookie_destroy: what it frees before the cookie itself.
  unfoldable pub destroy : OpCookie A → List ℕ
  unfolding free_from
  destroy cookie = free_from (suc (length cookie.nodes)) cookie.nodes cookie.res_head
