-- ===== src/Pool/Safety.antt =====
-- pool.c: the persistent list owns the connections that it points to.
use php_couchbase.Base.{
  ℕ, zero, suc, ◌≡◌, ◌≢◌, refl, ap, ◌∙◌, inl, inr, false, List, [], ◌∷◌, ◌++◌, Option, none, some,
  Bytes, bytes_eq, get_elem?, length, Bool-cases,
}
use php_couchbase.Pool.{Connection, Resource, foreign, couchbase, at_address, update_resource}

abbrev pub pointer : Resource → Option ℕ
pointer foreign = none
pointer (couchbase ptr) = ptr

-- A pointer that is NULL or that of a connection that is not freed.
abbrev pub Live : List Connection → Option ℕ → Type 0
Live conns none = Unit
Live conns (some a) = (c : Connection) × ((get_elem? conns a ≡ some c) × (c.freed ≡ false))

-- The address is not that of a pointer of the list.
abbrev pub Apart : ℕ → List (Bytes × Resource) → Type 0
Apart a [] = Unit
Apart a ((k, r) ∷ l) = (pointer r ≢ some a) × Apart a l

abbrev pub Sole : Option ℕ → List (Bytes × Resource) → Type 0
Sole none l = Unit
Sole (some a) l = Apart a l

-- Every pointer of the list is live, and no two are equal.
abbrev pub Owned : List Connection → List (Bytes × Resource) → Type 0
Owned conns [] = Unit
Owned conns ((k, r) ∷ l) = Live conns (pointer r) × (Sole (pointer r) l × Owned conns l)

-- What a write changes at another address, and what it keeps at its own.
pub at_address-Live :
    (f : Connection → Connection) (b : ℕ) (conns : List Connection) (p : Option ℕ)
    → ((c : Connection) → (f c).freed ≡ c.freed)
    → Live conns p
    → Live (at_address f b conns) p
unfolding at_address
at_address-Live f b conns none keep l = tt
at_address-Live f b [] (some a) keep l = l
at_address-Live f zero (d ∷ ds) (some zero) keep (c, (e, u)) =
    let same : d ≡ c = cc in (f d, (refl, keep d ∙ rw same u))
at_address-Live f zero (d ∷ ds) (some (suc a)) keep l = l
at_address-Live f (suc b) (d ∷ ds) (some zero) keep l = l
at_address-Live f (suc b) (d ∷ ds) (some (suc a)) keep l = at_address-Live f b ds (some a) keep l

pub at_address-Owned :
    (f : Connection → Connection) (b : ℕ) (conns : List Connection) (l : List (Bytes × Resource))
    → ((c : Connection) → (f c).freed ≡ c.freed)
    → Owned conns l
    → Owned (at_address f b conns) l
at_address-Owned f b conns [] keep o = tt
at_address-Owned f b conns ((k, r) ∷ l) keep (v, (s, o)) =
    (at_address-Live f b conns (pointer r) keep v, (s, at_address-Owned f b conns l keep o))

get_elem-append :
    (conns ds : List Connection) (a : ℕ) (c : Connection)
    → get_elem? conns a ≡ some c
    → get_elem? (conns ++ ds) a ≡ some c
get_elem-append [] ds a c e = cc
get_elem-append (d ∷ conns) ds zero c e = e
get_elem-append (d ∷ conns) ds (suc a) c e = get_elem-append conns ds a c e

pub get_elem-last :
    (conns : List Connection) (c : Connection) → get_elem? (conns ++ c ∷ []) (length conns) ≡ some c
get_elem-last [] c = refl
get_elem-last (d ∷ conns) c = get_elem-last conns c

get_elem-length : (conns : List Connection) → get_elem? conns (length conns) ≡ none
get_elem-length [] = refl
get_elem-length (d ∷ conns) = get_elem-length conns

append-Live : (conns ds : List Connection) (p : Option ℕ) → Live conns p → Live (conns ++ ds) p
append-Live conns ds none v = tt
append-Live conns ds (some a) (c, (e, u)) = (c, (get_elem-append conns ds a c e, u))

pub append-Owned :
    (conns ds : List Connection) (l : List (Bytes × Resource))
    → Owned conns l
    → Owned (conns ++ ds) l
append-Owned conns ds [] o = tt
append-Owned conns ds ((k, r) ∷ l) (v, (s, o)) =
    (append-Live conns ds (pointer r) v, (s, append-Owned conns ds l o))

-- A live pointer is not the next address.
Live-fresh : (conns : List Connection) (p : Option ℕ) → Live conns p → p ≢ some (length conns)
Live-fresh conns none v e = cc
Live-fresh conns (some a) (c, (f, u)) e =
    let same : a ≡ length conns = cc in cc (get_elem-length conns, same, f)

pub Owned-fresh :
    (conns : List Connection) (l : List (Bytes × Resource)) → Owned conns l → Apart (length conns) l
Owned-fresh conns [] o = tt
Owned-fresh conns ((k, r) ∷ l) (v, (s, o)) = (Live-fresh conns (pointer r) v, Owned-fresh conns l o)

update_resource-Apart :
    (key : Bytes) (n a : ℕ) (l : List (Bytes × Resource))
    → a ≢ n
    → Apart a l
    → Apart a (update_resource key (couchbase (some n)) l)
unfolding update_resource
update_resource-Apart key n a [] d s = ((λ h. d cc), tt)
update_resource-Apart key n a ((k, r) ∷ l) d s = elim (Bool-cases (bytes_eq k key)) [
  | inl e ↦ rw e ((λ h. d cc), s.1)
  | inr e ↦ rw e (s.0, update_resource-Apart key n a l d s.1)
]

update_resource-Sole :
    (key : Bytes) (n : ℕ) (p : Option ℕ) (l : List (Bytes × Resource))
    → p ≢ some n
    → Sole p l
    → Sole p (update_resource key (couchbase (some n)) l)
update_resource-Sole key n none l d s = tt
update_resource-Sole key n (some a) l d s = update_resource-Apart key n a l (λ e. d (ap some e)) s

pub update_resource-Owned :
    (key : Bytes) (n : ℕ) (conns : List Connection) (l : List (Bytes × Resource))
    → Live conns (some n)
    → Apart n l
    → Owned conns l
    → Owned conns (update_resource key (couchbase (some n)) l)
unfolding update_resource
update_resource-Owned key n conns [] v d o = (v, (tt, tt))
update_resource-Owned key n conns ((k, r) ∷ l) v d o = elim (Bool-cases (bytes_eq k key)) [
  | inl e ↦ rw e (v, (d.1, o.1.1))
  | inr e ↦ rw e (
    o.0,
    (
      update_resource-Sole key n (pointer r) l d.0 o.1.0,
      update_resource-Owned key n conns l v d.1 o.1.1,
    ),
  )
]
