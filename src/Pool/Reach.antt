-- ===== src/Pool/Reach.antt =====
-- pool.c: the pools that its operations can reach.
use php_couchbase.Base.{ℕ, ◌≡◌, refl, [], Option, Bytes}
use php_couchbase.Pool.{Client, Pool, addref, delref, at_address, got, connection_get, cleanup}
use php_couchbase.Pool.Connstr.{Url}
use php_couchbase.Pool.Safety.{at_address-Owned}
use php_couchbase.Pool.Dangling.{IsSafe, connection_get-IsSafe, delref-IsSafe}
use php_couchbase.Pool.Sweep.{cleanup-IsSafe}

module _ (url_parse : Bytes → Option Url) (client : Client) where
  -- One operation of a request, or of the clean-up at its end.
  pub data Change : Pool → Pool → Type 0 where
    gets :
        (pool q : Pool) (type : ℕ) (connstr : Bytes) (bucketname : Option Bytes) (auth_hash : Bytes)
        (at : ℕ)
        → connection_get url_parse client pool type connstr bucketname auth_hash ≡ got at q
        → Change pool q
    adds :
        (pool : Pool) (at : ℕ)
        → Change pool (record pool { conns = at_address addref at pool.conns })
    drops :
        (pool : Pool) (now at : ℕ)
        → Change pool (record pool { conns = at_address (delref now) at pool.conns })
    sweeps : (pool : Pool) (now : ℕ) → Change pool (cleanup now pool)

  -- Any number of them, from a persistent list that has nothing in it.
  pub data Reach : Pool → Type 0 where
    start : Reach (record { conns = []; persistent_list = [] })
    further : (p q : Pool) → Reach p → Change p q → Reach q

  Change-IsSafe : {p q : Pool} → Change p q → IsSafe p → IsSafe q
  Change-IsSafe (gets p q type connstr bucketname auth_hash at e) s =
      connection_get-IsSafe url_parse client p type connstr bucketname auth_hash at q s e
  Change-IsSafe (adds p at) s =
      at_address-Owned addref at p.conns p.persistent_list (λ c. unfold addref in refl) s
  Change-IsSafe (drops p now at) s = delref-IsSafe now at p s
  Change-IsSafe (sweeps p now) s = cleanup-IsSafe now p s

  -- In every pool that calls of pcbc_connection_get, addref, delref and the clean-up can reach from
  -- an empty one, in any order and at any times, no pointer of the persistent list is to a freed
  -- connection, and no two are equal.
  pub Reach-IsSafe : {p : Pool} → Reach p → IsSafe p
  Reach-IsSafe start = tt
  Reach-IsSafe (further p q r s) = Change-IsSafe s (Reach-IsSafe r)
