-- ===== src/Pool/Registry.antt =====
-- pool.c: which connection a caller gets, and which the clean-up leaves.
use php_couchbase.Base.{
  ℕ, zero, suc, ◌≡◌, ◌≢◌, ◌↔◌, refl, ap, ◌∙◌, inl, inr, Bool, true, false, List, [], ◌∷◌, ◌++◌,
  Option, none, some, arith, Bytes, bytes_eq, bytes_eq_refl, get_elem?, length, ◌==◌, ◌&&◌,
  Bool-cases, Option-cases,
}
use php_couchbase.OpCookie.{lcb_success}
use php_couchbase.Pool.Connstr.{Url, normalize_connstr}
use php_couchbase.Pool.{
  Client, Attempt, refused, destroyed, connected, try_calls, created, establish, Connection,
  Resource, foreign, couchbase, Pool, addref, at_address, find_resource, update_resource,
  pointer_of, lookup, cache, plist_key, got, register, new_connection, get_by_key, get_normalized,
  connection_get, is_positive, is_idle, release, destroy_if, destroy_idle, cleanup_loop, cleanup,
}

-- All the calls that make a connection succeed.
abbrev pub all_succeed : Client → ℕ × ℕ → Bool
all_succeed client (err, conn) =
    err == lcb_success
    && client.set_logger conn == lcb_success
    && client.set_client_string conn == lcb_success
    && client.connect conn == lcb_success
    && client.bootstrap_status conn == lcb_success

created-connected :
    (client : Client) (r : ℕ × ℕ)
    → (created client r ≡ connected r.1) ↔ (all_succeed client r ≡ true)
unfolding created try_calls
created-connected client (err, conn) = ground arith

-- pcbc_establish_connection gives the instance that lcb_create made exactly if every call
-- succeeds.
pub establish-connected :
    (client : Client) (type : ℕ) (connstr : Bytes)
    → (establish client type connstr ≡ connected (client.create type connstr).1)
      ↔ (all_succeed client (client.create type connstr) ≡ true)
unfolding establish
establish-connected client type connstr = created-connected client (client.create type connstr)

find-update_resource :
    (key : Bytes) (res : Resource) (l : List (Bytes × Resource))
    → find_resource key (update_resource key res l) ≡ some res
unfolding find_resource update_resource
find-update_resource key res [] = rw (bytes_eq_refl key) refl
find-update_resource key res ((k, r) ∷ l) = elim (Bool-cases (bytes_eq k key)) [
  | inl e ↦ rw (e, e) refl
  | inr e ↦ rw (e, e) (find-update_resource key res l)
]

lookup-cache : (pool : Pool) (key : Bytes) (at : ℕ) → lookup (cache pool key at) key ≡ some at
unfolding lookup cache pointer_of
lookup-cache pool key at =
    rw (find-update_resource key (couchbase (some at)) pool.persistent_list) refl

module _ (url_parse : Bytes → Option Url) (client : Client) where
  register-lookup :
      (pool : Pool) (key : Bytes) (type : ℕ) (cstr auth_hash : Bytes) (r : Attempt) (at : ℕ)
      (q : Pool)
      → register url_parse client pool key type cstr auth_hash r ≡ got at q
      → lookup q key ≡ some at
  unfolding register
  register-lookup pool key type cstr auth_hash (refused err) at q e = cc
  register-lookup pool key type cstr auth_hash (destroyed conn err) at q e = cc
  register-lookup pool key type cstr auth_hash (connected lcb) at q e = cc (
      lookup-cache
        (record pool {
          conns = pool.conns ++ new_connection url_parse client type cstr auth_hash lcb ∷ [];
        })
        key (length pool.conns))

  lookup-conns :
      (pool : Pool) (key : Bytes) (conns : List Connection)
      → lookup (record pool { conns = conns }) key ≡ lookup pool key
  unfolding lookup
  lookup-conns pool key conns = refl

  get_by_key-lookup :
      (pool : Pool) (key : Bytes) (type : ℕ) (cstr auth_hash : Bytes) (r : Option ℕ) (at : ℕ)
      (q : Pool)
      → lookup pool key ≡ r
      → get_by_key url_parse client pool key type cstr auth_hash r ≡ got at q
      → lookup q key ≡ some at
  unfolding get_by_key
  get_by_key-lookup pool key type cstr auth_hash none at q l e =
      register-lookup pool key type cstr auth_hash (establish client type cstr) at q e
  get_by_key-lookup pool key type cstr auth_hash (some b) at q l e =
      let same : lookup (record pool { conns = at_address addref b pool.conns }) key ≡ some b =
        lookup-conns pool key (at_address addref b pool.conns) ∙ l in
      cc

  get_normalized-again :
      (later : Client) (pool : Pool) (type : ℕ) (auth_hash : Bytes) (cstr : Option Bytes) (at : ℕ)
      (q : Pool)
      → get_normalized url_parse client pool type auth_hash cstr ≡ got at q
      → get_normalized url_parse later q type auth_hash cstr
        ≡ got at (record q { conns = at_address addref at q.conns })
  unfolding get_normalized
  get_normalized-again later pool type auth_hash none at q e = cc
  get_normalized-again later pool type auth_hash (some cstr) at q e =
      let key = plist_key type cstr auth_hash in
      rw (get_by_key-lookup pool key type cstr auth_hash (lookup pool key) at q refl e)
        (unfold get_by_key in refl)

  -- When pcbc_connection_get has given a connection, a second call with the same arguments gives the
  -- same one, with one reference more and no idle time, whatever libcouchbase would answer by then.
  pub connection_get-again :
      (later : Client) (pool : Pool) (type : ℕ) (connstr : Bytes) (bucketname : Option Bytes)
      (auth_hash : Bytes) (at : ℕ) (q : Pool)
      → connection_get url_parse client pool type connstr bucketname auth_hash ≡ got at q
      → connection_get url_parse later q type connstr bucketname auth_hash
        ≡ got at (record q { conns = at_address addref at q.conns })
  unfolding connection_get
  connection_get-again later pool type connstr bucketname auth_hash at q e =
      get_normalized-again later pool type auth_hash
        (normalize_connstr url_parse type connstr bucketname) at q e

pub get-at_address :
    (f : Connection → Connection) (a b : ℕ) (conns : List Connection)
    → a ≢ b
    → get_elem? (at_address f b conns) a ≡ get_elem? conns a
unfolding at_address
get-at_address f a b [] n = refl
get-at_address f zero zero (c ∷ cs) n = absurd (n refl)
get-at_address f zero (suc b) (c ∷ cs) n = refl
get-at_address f (suc a) zero (c ∷ cs) n = refl
get-at_address f (suc a) (suc b) (c ∷ cs) n = get-at_address f a b cs (λ e. n (ap suc e))

-- A connection that the tests spare.
Kept : ℕ → ℕ → Connection → List Connection → Type 0
Kept now a conn conns = (get_elem? conns a ≡ some conn) × (is_idle now conn ≡ false)

destroy_idle-Kept :
    (now a : ℕ) (conn : Connection) (conns : List Connection) (res : Resource)
    → Kept now a conn conns
    → Kept now a conn (destroy_idle now conns res).0
unfolding destroy_idle destroy_if Kept
destroy_idle-Kept now a conn conns foreign k = k
destroy_idle-Kept now a conn conns (couchbase none) k = k
destroy_idle-Kept now a conn conns (couchbase (some b)) k =
    elim (Option-cases (get_elem? conns b)) [
      | inl e ↦ rw (destroy_idle, e) k
      | inr (d, e) ↦ elim (Bool-cases (is_idle now d)) [
        | inl i ↦
            let apart : a ≢ b = λ p. cc (i, e, k.0, k.1, p) in
            rw (destroy_idle, e, i) (rw (get-at_address release a b conns apart) k.0, k.1)
        | inr i ↦ rw (destroy_idle, e, i) k
      ]
    ]

cleanup_loop-Kept :
    (now a : ℕ) (conn : Connection) (conns : List Connection) (l : List (Bytes × Resource))
    → Kept now a conn conns
    → Kept now a conn (cleanup_loop now conns l).0
unfolding cleanup_loop
cleanup_loop-Kept now a conn conns [] k = k
cleanup_loop-Kept now a conn conns ((key, res) ∷ l) k =
    cleanup_loop-Kept now a conn (destroy_idle now conns res).0 l
      (destroy_idle-Kept now a conn conns res k)

is_idle-positive :
    (now : ℕ) (conn : Connection) → is_positive conn.refs ≡ true → is_idle now conn ≡ false
unfolding is_idle
is_idle-positive now conn h = rw h refl

-- pcbc_connection_cleanup leaves every connection that still has references as it is.
pub cleanup-referenced :
    (now a : ℕ) (conn : Connection) (pool : Pool)
    → get_elem? pool.conns a ≡ some conn
    → is_positive conn.refs ≡ true
    → get_elem? (cleanup now pool).conns a ≡ some conn
unfolding cleanup
cleanup-referenced now a conn pool e h =
    let kept =
      cleanup_loop-Kept now a conn pool.conns pool.persistent_list
        (unfold Kept in (e, is_idle-positive now conn h)) in
    (unfold Kept in kept.0)
