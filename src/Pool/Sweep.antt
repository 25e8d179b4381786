-- ===== src/Pool/Sweep.antt =====
-- pool.c: the clean-up destroys a connection once, and no pointer to it stays.
use php_couchbase.Base.{
  ℕ, ◌≡◌, ◌≢◌, refl, ap, sym, ◌∙◌, subst, inl, inr, Bool, true, false, List, [], ◌∷◌, Option, none,
  some, Bytes, get_elem?, Bool-cases, Option-cases,
}
use php_couchbase.Pool.Registry.{get-at_address}
use php_couchbase.Pool.Safety.{pointer, Live, Apart, Sole, Owned}
use php_couchbase.Pool.{
  Connection, Resource, foreign, couchbase, Pool, is_idle, release, destroy_if, destroy_idle,
  cleanup_loop, cleanup,
}
use php_couchbase.Pool.Dangling.{IsSafe}

destroy_if-Live :
    (test : Bool) (a : ℕ) (p : Option ℕ) (conns : List Connection)
    → p ≢ some a
    → Live conns p
    → Live (destroy_if test a conns).0 p
unfolding destroy_if
destroy_if-Live false a p conns n v = v
destroy_if-Live true a none conns n v = tt
destroy_if-Live true a (some b) conns n (c, (e, u)) =
    (c, (get-at_address release b a conns (λ h. n (ap some h)) ∙ e, u))

destroy_idle-Live :
    (now : ℕ) (conns : List Connection) (r : Resource) (p : Option ℕ)
    → ((a : ℕ) → pointer r ≡ some a → p ≢ some a)
    → Live conns p
    → Live (destroy_idle now conns r).0 p
unfolding destroy_idle
destroy_idle-Live now conns foreign p n v = v
destroy_idle-Live now conns (couchbase none) p n v = v
destroy_idle-Live now conns (couchbase (some a)) p n v = elim (Option-cases (get_elem? conns a)) [
  | inl e ↦ rw (destroy_idle, e) v
  | inr (d, e) ↦ rw (destroy_idle, e) (destroy_if-Live (is_idle now d) a p conns (n a refl) v)
]

Sole-pointer :
    (p : Option ℕ) (k : Bytes) (r : Resource) (l : List (Bytes × Resource)) (a : ℕ)
    → Sole p ((k, r) ∷ l)
    → pointer r ≡ some a
    → p ≢ some a
Sole-pointer none k r l a s e h = cc
Sole-pointer (some b) k r l a s e h = s.0 (e ∙ sym h)

Sole-rest :
    (p : Option ℕ) (k : Bytes) (r : Resource) (l : List (Bytes × Resource))
    → Sole p ((k, r) ∷ l)
    → Sole p l
Sole-rest none k r l s = tt
Sole-rest (some b) k r l s = s.1

-- A pointer that the rest of the list does not have survives the loop over the rest.
cleanup_loop-Live :
    (now : ℕ) (conns : List Connection) (l : List (Bytes × Resource)) (p : Option ℕ)
    → Sole p l
    → Live conns p
    → Live (cleanup_loop now conns l).0 p
unfolding cleanup_loop
cleanup_loop-Live now conns [] p s v = v
cleanup_loop-Live now conns ((k, r) ∷ l) p s v =
    cleanup_loop-Live now (destroy_idle now conns r).0 l p (Sole-rest p k r l s)
      (destroy_idle-Live now conns r p (λ a. Sole-pointer p k r l a s) v)

-- What one step leaves of the resource itself.
destroy_idle-head :
    (now : ℕ) (conns : List Connection) (r : Resource)
    → Live conns (pointer r)
    → Live (destroy_idle now conns r).0 (pointer (destroy_idle now conns r).1)
unfolding destroy_idle
destroy_idle-head now conns foreign v = tt
destroy_idle-head now conns (couchbase none) v = tt
destroy_idle-head now conns (couchbase (some a)) v = elim (Option-cases (get_elem? conns a)) [
  | inl e ↦ rw (destroy_idle, e) v
  | inr (d, e) ↦ elim (Bool-cases (is_idle now d)) [
    | inl i ↦ rw (destroy_idle, e, i) (unfold destroy_if in tt)
    | inr i ↦ rw (destroy_idle, e, i) (unfold destroy_if in v)
  ]
]

destroy_idle-Sole :
    (now : ℕ) (conns : List Connection) (r : Resource) (l : List (Bytes × Resource))
    → Sole (pointer r) l
    → Sole (pointer (destroy_idle now conns r).1) l
unfolding destroy_idle
destroy_idle-Sole now conns foreign l s = tt
destroy_idle-Sole now conns (couchbase none) l s = tt
destroy_idle-Sole now conns (couchbase (some a)) l s = elim (Option-cases (get_elem? conns a)) [
  | inl e ↦ rw (destroy_idle, e) s
  | inr (d, e) ↦ elim (Bool-cases (is_idle now d)) [
    | inl i ↦ rw (destroy_idle, e, i) (unfold destroy_if in tt)
    | inr i ↦ rw (destroy_idle, e, i) (unfold destroy_if in s)
  ]
]

destroy_idle-pointer :
    (now : ℕ) (conns : List Connection) (r : Resource) (a : ℕ)
    → pointer r ≢ some a
    → pointer (destroy_idle now conns r).1 ≢ some a
unfolding destroy_idle
destroy_idle-pointer now conns foreign a n = n
destroy_idle-pointer now conns (couchbase none) a n = n
destroy_idle-pointer now conns (couchbase (some b)) a n = elim (Option-cases (get_elem? conns b)) [
  | inl e ↦ rw (destroy_idle, e) n
  | inr (d, e) ↦ elim (Bool-cases (is_idle now d)) [
    | inl i ↦ rw (destroy_idle, e, i) (unfold destroy_if in λ h. cc)
    | inr i ↦ rw (destroy_idle, e, i) (unfold destroy_if in n)
  ]
]

destroy_idle-Owned :
    (now : ℕ) (conns : List Connection) (r : Resource) (l : List (Bytes × Resource))
    → ((a : ℕ) → pointer r ≡ some a → Apart a l)
    → Owned conns l
    → Owned (destroy_idle now conns r).0 l
destroy_idle-Owned now conns r [] n o = tt
destroy_idle-Owned now conns r ((k, t) ∷ l) n o = (
  destroy_idle-Live now conns r (pointer t) (λ a e. (n a e).0) o.0,
  (o.1.0, destroy_idle-Owned now conns r l (λ a e. (n a e).1) o.1.1),
)

Sole-Apart :
    (p : Option ℕ) (l : List (Bytes × Resource)) (a : ℕ) → Sole p l → p ≡ some a → Apart a l
Sole-Apart none l a s e = cc
Sole-Apart (some b) l a s e = let same : b ≡ a = cc in subst (λ i. Apart i l) same s

cleanup_loop-Apart :
    (now : ℕ) (conns : List Connection) (l : List (Bytes × Resource)) (a : ℕ)
    → Apart a l
    → Apart a (cleanup_loop now conns l).1
unfolding cleanup_loop
cleanup_loop-Apart now conns [] a s = tt
cleanup_loop-Apart now conns ((k, r) ∷ l) a s = (
  destroy_idle-pointer now conns r a s.0,
  cleanup_loop-Apart now (destroy_idle now conns r).0 l a s.1,
)

cleanup_loop-Sole :
    (now : ℕ) (conns : List Connection) (l : List (Bytes × Resource)) (p : Option ℕ)
    → Sole p l
    → Sole p (cleanup_loop now conns l).1
cleanup_loop-Sole now conns l none s = tt
cleanup_loop-Sole now conns l (some a) s = cleanup_loop-Apart now conns l a s

cleanup_loop-Owned :
    (now : ℕ) (conns : List Connection) (l : List (Bytes × Resource))
    → Owned conns l
    → Owned (cleanup_loop now conns l).0 (cleanup_loop now conns l).1
unfolding cleanup_loop
cleanup_loop-Owned now conns [] o = tt
cleanup_loop-Owned now conns ((k, r) ∷ l) o =
    let sole = destroy_idle-Sole now conns r l o.1.0 in
    let rest = destroy_idle-Owned now conns r l (λ a e. Sole-Apart (pointer r) l a o.1.0 e) o.1.1 in
    (
      cleanup_loop-Live now (destroy_idle now conns r).0 l (pointer (destroy_idle now conns r).1)
          sole (destroy_idle-head now conns r o.0),
      (
        cleanup_loop-Sole now (destroy_idle now conns r).0 l (pointer (destroy_idle now conns r).1)
            sole,
        cleanup_loop-Owned now (destroy_idle now conns r).0 l rest,
      ),
    )

-- pcbc_connection_cleanup leaves no pointer to a freed connection and no two equal pointers in the
-- persistent list, if there were none before.
pub cleanup-IsSafe : (now : ℕ) (pool : Pool) → IsSafe pool → IsSafe (cleanup now pool)
unfolding cleanup
cleanup-IsSafe now pool s = cleanup_loop-Owned now pool.conns pool.persistent_list s
