-- ===== src/Examples/Pools.antt =====
-- pool.c.
use php_couchbase.Base.{
  ℕ, ◌≡◌, refl, false, [], ◌∷◌, Option, none, some, Bytes, codes, get_elem?, get_or, ◌==◌,
  if◌then◌else◌,
}
use php_couchbase.Decimal.{decimal}
use php_couchbase.Pool.Connstr.{Url, normalize_connstr}
use php_couchbase.Pool.{
  Client, Connection, couchbase, Pool, delref, at_address, got, connection_get, cleanup,
}
use php_couchbase.Pool.Registry.{cleanup-referenced}
use php_couchbase.Pool.Dangling.{IsSafe}
use php_couchbase.Pool.Reach.{Reach, start, further, gets, drops, sweeps, Reach-IsSafe}

-- A parser that takes a text behind `couchbase://` for a host, and any other for a path.
abbrev pub url_parse : Bytes → Option Url
url_parse s =
    if get_or s 0 0 == b'c'
    then some (record {
      scheme = some (codes "couchbase");
      host = some (codes "h");
      port = 8091;
      path = none;
      query = none;
    })
    else some (record { scheme = none; host = none; port = 0; path = some s; query = none })

-- libcouchbase, with every call a success.
abbrev pub client : Client
client = record {
  create = λ type connstr. (0, 40);
  set_logger = λ conn. 0;
  set_client_string = λ conn. 0;
  connect = λ conn. 0;
  bootstrap_status = λ conn. 0;
  bucketname = λ conn. some (codes "b");
  lcb_einval = 7;
}

normalizes :
    normalize_connstr url_parse 0 (codes "h:8091") (some (codes "b"))
    ≡ some (codes "couchbase://h:8091/b")
unfolding normalize_connstr decimal
normalizes = refl

abbrev pub empty : Pool
empty = record { conns = []; persistent_list = [] }

abbrev pub connection : ℕ → ℕ → Connection
connection refs idle_at = record {
  type = 0;
  connstr = codes "couchbase://h:8091/b";
  bucketname = some (codes "b");
  auth_hash = codes "x";
  lcb = 40;
  refs = refs;
  idle_at = idle_at;
  freed = false;
}

abbrev key : Bytes
key = codes "0|couchbase://h:8091/b|x"

abbrev pub pool_of : Connection → Pool
pool_of c = record { conns = c ∷ []; persistent_list = (key, couchbase (some 0)) ∷ [] }

gets_one :
    connection_get url_parse client empty 0 (codes "h:8091") (some (codes "b")) (codes "x")
    ≡ got 0 (pool_of (connection 1 0))
unfolding connection_get decimal
gets_one = refl

cleanup-referenced_example :
    get_elem? (cleanup 500 (pool_of (connection 2 0))).conns 0 ≡ some (connection 2 0)
cleanup-referenced_example =
    cleanup-referenced 500 0 (connection 2 0) (pool_of (connection 2 0)) refl refl

-- The pool after the only reference is dropped.
abbrev dropped : ℕ → Pool
dropped now = record (pool_of (connection 1 0)) {
  conns = at_address (delref now) 0 (connection 1 0 ∷ []);
}

reached : Reach url_parse client (cleanup 500 (dropped 100))
reached =
    further (dropped 100) (cleanup 500 (dropped 100))
      (further (pool_of (connection 1 0)) (dropped 100)
        (further empty (pool_of (connection 1 0)) start (
          gets empty (pool_of (connection 1 0)) 0 (codes "h:8091") (some (codes "b")) (codes "x") 0
            gets_one))
        (drops (pool_of (connection 1 0)) 100 0))
      (sweeps (dropped 100) 500)

Reach-IsSafe_example : IsSafe (cleanup 500 (dropped 100))
Reach-IsSafe_example = Reach-IsSafe url_parse client reached
