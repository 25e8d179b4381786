-- ===== src/Pool/Dangling.antt =====
-- pool.c: no operation leaves a pointer of the persistent list to a freed connection.
use php_couchbase.Base.{
  ℕ, ◌≡◌, refl, subst, [], ◌∷◌, ◌++◌, Option, none, some, arith, Bytes, length,
}
use php_couchbase.Pool.Connstr.{Url, normalize_connstr}
use php_couchbase.Pool.Safety.{
  Owned, at_address-Owned, append-Owned, get_elem-last, Owned-fresh, update_resource-Owned,
}
use php_couchbase.Pool.{
  Client, Attempt, refused, destroyed, connected, establish, Pool, addref, delref, at_address,
  lookup, cache, plist_key, Got, failed, got, register, new_connection, get_by_key, get_normalized,
  connection_get,
}

-- The invariant: no pointer of the persistent list is to a freed connection, and no two are equal.
abbrev pub IsSafe : Pool → Type 0
IsSafe pool = Owned pool.conns pool.persistent_list

abbrev pub OnGot : Got → Type 0
OnGot (failed err) = Unit
OnGot (got at q) = IsSafe q

module _ (url_parse : Bytes → Option Url) (client : Client) where
  register-OnGot :
      (pool : Pool) (key : Bytes) (type : ℕ) (cstr auth_hash : Bytes) (r : Attempt)
      → IsSafe pool
      → OnGot (register url_parse client pool key type cstr auth_hash r)
  unfolding register cache new_connection
  register-OnGot pool key type cstr auth_hash (refused err) s = tt
  register-OnGot pool key type cstr auth_hash (destroyed conn err) s = tt
  register-OnGot pool key type cstr auth_hash (connected lcb) s =
      let c = new_connection url_parse client type cstr auth_hash lcb in
      update_resource-Owned key (length pool.conns) (pool.conns ++ c ∷ []) pool.persistent_list
        (c, (get_elem-last pool.conns c, refl)) (Owned-fresh pool.conns pool.persistent_list s)
        (append-Owned pool.conns (c ∷ []) pool.persistent_list s)

  get_by_key-OnGot :
      (pool : Pool) (key : Bytes) (type : ℕ) (cstr auth_hash : Bytes) (r : Option ℕ)
      → IsSafe pool
      → OnGot (get_by_key url_parse client pool key type cstr auth_hash r)
  unfolding get_by_key
  get_by_key-OnGot pool key type cstr auth_hash none s =
      register-OnGot pool key type cstr auth_hash (establish client type cstr) s
  get_by_key-OnGot pool key type cstr auth_hash (some at) s =
      at_address-Owned addref at pool.conns pool.persistent_list (λ c. unfold addref in refl) s

  get_normalized-OnGot :
      (pool : Pool) (type : ℕ) (auth_hash : Bytes) (cstr : Option Bytes)
      → IsSafe pool
      → OnGot (get_normalized url_parse client pool type auth_hash cstr)
  unfolding get_normalized
  get_normalized-OnGot pool type auth_hash none s = tt
  get_normalized-OnGot pool type auth_hash (some cstr) s =
      get_by_key-OnGot pool (plist_key type cstr auth_hash) type cstr auth_hash
        (lookup pool (plist_key type cstr auth_hash)) s

  -- The pool that pcbc_connection_get leaves when it gives a connection has no pointer to a freed
  -- connection and no two equal pointers in its persistent list, if the pool before had none.
  pub connection_get-IsSafe :
      (pool : Pool) (type : ℕ) (connstr : Bytes) (bucketname : Option Bytes) (auth_hash : Bytes)
      (at : ℕ) (q : Pool)
      → IsSafe pool
      → connection_get url_parse client pool type connstr bucketname auth_hash ≡ got at q
      → IsSafe q
  unfolding connection_get
  connection_get-IsSafe pool type connstr bucketname auth_hash at q s e = subst OnGot e (
      get_normalized-OnGot pool type auth_hash (normalize_connstr url_parse type connstr bucketname)
        s)

-- pcbc_connection_delref of any connection leaves no pointer to a freed connection and no two equal
-- pointers in the persistent list, if there were none before.
pub delref-IsSafe :
    (now at : ℕ) (pool : Pool)
    → IsSafe pool
    → IsSafe (record pool { conns = at_address (delref now) at pool.conns })
delref-IsSafe now at pool s =
    at_address-Owned (delref now) at pool.conns pool.persistent_list
      (λ c. unfold delref in ground arith) s
