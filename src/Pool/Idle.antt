-- ===== src/Pool/Idle.antt =====
-- pool.c: what the clean-up forgets.
use php_couchbase.Base.{
  ℕ, zero, suc, ◌≡◌, refl, ap, sym, ◌∙◌, inl, inr, Bool, true, false, List, [], ◌∷◌, none, some,
  Bytes, bytes_eq, get_elem?, Bool-cases, Option-cases,
}
use php_couchbase.Pool.{
  Connection, Resource, foreign, couchbase, Pool, at_address, find_resource, pointer_of, lookup,
  is_idle, release, destroy_if, destroy_idle, cleanup_loop, cleanup,
}

release-idle : (now : ℕ) (c : Connection) → is_idle now c ≡ true → is_idle now (release c) ≡ true
unfolding is_idle release
release-idle now c h = h

-- A connection at the address `a` that the tests do not spare.
Idle : ℕ → ℕ → List Connection → Type 0
Idle now a conns = (c : Connection) × ((get_elem? conns a ≡ some c) × (is_idle now c ≡ true))

release-Idle :
    (now a b : ℕ) (conns : List Connection)
    → Idle now a conns
    → Idle now a (at_address release b conns)
unfolding at_address Idle
release-Idle now a b [] k = k
release-Idle now zero zero (d ∷ ds) (c, (e, i)) =
    let same : d ≡ c = cc in (release d, (refl, release-idle now d (rw same i)))
release-Idle now zero (suc b) (d ∷ ds) k = k
release-Idle now (suc a) zero (d ∷ ds) k = k
release-Idle now (suc a) (suc b) (d ∷ ds) k = release-Idle now a b ds k

destroy_if-Idle :
    (now a b : ℕ) (test : Bool) (conns : List Connection)
    → Idle now a conns
    → Idle now a (destroy_if test b conns).0
unfolding destroy_if
destroy_if-Idle now a b true conns k = release-Idle now a b conns k
destroy_if-Idle now a b false conns k = k

destroy_idle-Idle :
    (now a : ℕ) (conns : List Connection) (res : Resource)
    → Idle now a conns
    → Idle now a (destroy_idle now conns res).0
unfolding destroy_idle
destroy_idle-Idle now a conns foreign k = k
destroy_idle-Idle now a conns (couchbase none) k = k
destroy_idle-Idle now a conns (couchbase (some b)) k = elim (Option-cases (get_elem? conns b)) [
  | inl e ↦ rw (destroy_idle, e) k
  | inr (d, e) ↦ rw (destroy_idle, e) (destroy_if-Idle now a b (is_idle now d) conns k)
]

destroy_idle-pointer :
    (now a : ℕ) (conns : List Connection)
    → Idle now a conns
    → (destroy_idle now conns (couchbase (some a))).1 ≡ couchbase none
unfolding destroy_idle destroy_if Idle
destroy_idle-pointer now a conns (c, (e, i)) = rw (destroy_idle, e, i) refl

-- What is found under a key, at the head of a list or behind it.
pointer-here :
    (key k : Bytes) (r : Resource) (l : List (Bytes × Resource))
    → bytes_eq k key ≡ true
    → find_resource key ((k, r) ∷ l) ≡ some r
unfolding find_resource
pointer-here key k r l e = rw e refl

pointer-later :
    (key k : Bytes) (r : Resource) (l : List (Bytes × Resource))
    → bytes_eq k key ≡ false
    → find_resource key ((k, r) ∷ l) ≡ find_resource key l
unfolding find_resource
pointer-later key k r l e = rw e refl

cleanup_loop-pointer :
    (now a : ℕ) (key : Bytes) (conns : List Connection) (l : List (Bytes × Resource))
    → Idle now a conns
    → find_resource key l ≡ some (couchbase (some a))
    → find_resource key (cleanup_loop now conns l).1 ≡ some (couchbase none)
unfolding cleanup_loop
cleanup_loop-pointer now a key conns [] k f = absurd (unfold find_resource in cc)
cleanup_loop-pointer now a key conns ((j, res) ∷ l) k f = elim (Bool-cases (bytes_eq j key)) [
  | inl e ↦
      let same : res ≡ couchbase (some a) = cc (pointer-here key j res l e) in
      pointer-here key j (destroy_idle now conns res).1 _ e
      ∙ ap some (rw same (destroy_idle-pointer now a conns k))
  | inr e ↦
      pointer-later key j (destroy_idle now conns res).1 _ e
      ∙ cleanup_loop-pointer now a key (destroy_idle now conns res).0 l
          (destroy_idle-Idle now a conns res k) (sym (pointer-later key j res l e) ∙ f)
]

-- After pcbc_connection_cleanup a connection without references that has been idle for more than
-- 60 seconds is no longer found under its key.
pub cleanup-idle :
    (now a : ℕ) (key : Bytes) (pool : Pool) (c : Connection)
    → find_resource key pool.persistent_list ≡ some (couchbase (some a))
    → get_elem? pool.conns a ≡ some c
    → is_idle now c ≡ true
    → lookup (cleanup now pool) key ≡ none
unfolding cleanup lookup pointer_of
cleanup-idle now a key pool c f e i =
    ap pointer_of (
      cleanup_loop-pointer now a key pool.conns pool.persistent_list (unfold Idle in (c, (e, i))) f)
