-- ===== src/Examples/Access.antt =====
-- The authenticators and cluster.c.
use php_couchbase.Base.{
  ◌%◌, ◌^◌, ◌≡◌, ◌≢◌, ◌↔◌, refl, true, false, List, [], ◌∷◌, none, some, Bytes, codes, length,
  arith, bytes_eq,
}
use php_couchbase.Decimal.{decimal}
use php_couchbase.Auth.{Generated}
use php_couchbase.Auth.Classic.{ClassicAuthenticator, classic_construct, generate_classic}
use php_couchbase.Auth.Classic.Buckets.{stored_password, bucket_calls, stored_password-bucket_calls}
use php_couchbase.Auth.Classic.Named.{find_pass, find_pass-generate_classic}
use php_couchbase.Auth.Password.{generate_password, password_init}
use php_couchbase.Pool.Connstr.{type_bucket}
use php_couchbase.Pool.{Client, addref, at_address, connection_get}
use php_couchbase.Cluster.{
  Cluster, classic, authenticate, authenticate_as, bucket, undefined, open_bucket, cluster_manager,
}
use php_couchbase.Cluster.Shared.{object_on, open_bucket-shared}
use php_couchbase.Cluster.Unnamed.{is_missing, by_password, open_bucket-cluster_manager}
use php_couchbase.Examples.Pools.{url_parse, client, empty, connection, pool_of}

abbrev passwords : List (Bytes × Bytes)
passwords = (codes "a", codes "1") ∷ (codes "b", codes "2") ∷ (codes "a", codes "3") ∷ []

stored_password-bucket_calls_example :
    stored_password (codes "a") (bucket_calls classic_construct passwords).buckets
      ≡ some (codes "3")
    × (bucket_calls classic_construct passwords).nbuckets
      ≡ length (bucket_calls classic_construct passwords).buckets % 2 ^ 32
unfolding bytes_eq
stored_password-bucket_calls_example = stored_password-bucket_calls (codes "a") passwords (
  (λ e. absurd (omega arith), tt),
  ((λ e. absurd (omega arith), tt), ((λ e. absurd (omega arith), tt), tt)),
)

-- An authenticator with a password for the bucket `b`.
abbrev one_bucket : ClassicAuthenticator
one_bucket = record {
  cluster = none;
  buckets = record { username = codes "b"; password = codes "p" } ∷ [];
  nbuckets = 1;
}

find_pass-generate_classic_example :
    (g : Generated) × (generate_classic (some one_bucket) type_bucket (some (codes "bb")) none
      ≡ some g)
    × (find_pass (codes "bb") g.passes ≡ none)
unfolding bytes_eq
find_pass-generate_classic_example =
    find_pass-generate_classic one_bucket (codes "bb")
      (λ e. absurd (omega arith), (λ e. absurd (omega arith), tt))
      ((λ e. absurd (omega arith), tt), tt) refl

abbrev answering : Generated → Client
answering g = client

abbrev digest : Bytes → Bytes
digest hashed = codes "x"

abbrev local : Cluster
local = record { connstr = codes "h:8091"; auth = none }

opens_one :
    open_bucket url_parse answering digest empty
      (authenticate_as (codes "a") (codes "bc") local)
      (some (codes "b"))
      none
    ≡ bucket (object_on 0) (pool_of (connection 1 0))
unfolding open_bucket connection_get decimal authenticate_as generate_password password_init
opens_one = refl

open_bucket-shared_example :
    open_bucket url_parse answering digest
      (pool_of (connection 1 0))
      (authenticate_as (codes "ab") (codes "c") local)
      (some (codes "b"))
      none
    ≡ bucket (object_on 0) (pool_of (connection 2 0))
unfolding addref at_address
open_bucket-shared_example =
    open_bucket-shared url_parse answering digest empty (pool_of (connection 1 0)) local
      (some (codes "b")) (codes "a") (codes "bc") (codes "ab") (codes "c") (object_on 0) refl
      opens_one

open_bucket-cluster_manager_example :
    open_bucket url_parse answering digest empty (authenticate (classic one_bucket) local) none none
      ≢ undefined
    × ((cluster_manager url_parse answering digest empty
            (authenticate (classic one_bucket) local)
            none
            none
          ≡ undefined)
        ↔ ((is_missing none ≡ true) × (by_password (some (classic one_bucket)) ≡ false)))
unfolding authenticate
open_bucket-cluster_manager_example =
    open_bucket-cluster_manager url_parse answering digest empty
      (authenticate (classic one_bucket) local) none none
