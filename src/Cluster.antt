-- ===== src/Cluster.antt =====
-- src/couchbase/cluster.c, with pcbc_bucket_init of src/couchbase/bucket.c and
-- pcbc_cluster_manager_init of src/couchbase/cluster_manager.c, which turn the authenticator of a
-- cluster into a connection of the pool. MD5 is the parameter `md5`, in hexadecimal digits; what
-- libcouchbase answers depends on the credentials that lcb_set_auth gave it.
pub mod Shared
pub mod Unnamed
use php_couchbase.Base.{ℕ, List, [], ◌∷◌, ◌++◌, Option, none, some, Bytes, codes}
use php_couchbase.Zval.{Zval, string}
use php_couchbase.MutationToken.{estrdup}
use php_couchbase.Pool.Connstr.{Url, type_bucket, type_cluster}
use php_couchbase.Pool.{Client, Pool, Got, failed, got, connection_get}
use php_couchbase.Auth.{Generated}
use php_couchbase.Auth.Classic.{ClassicAuthenticator, generate_classic}
use php_couchbase.Auth.Password.{PasswordAuthenticator, password_init, generate_password}

-- An object that implements \Couchbase\Authenticator.
pub data Authenticator : Type 0 where
  classic : ClassicAuthenticator → Authenticator
  password_based : PasswordAuthenticator → Authenticator
  other : Authenticator

-- pcbc_cluster_t
pub record Cluster : Type 0 where
  pub connstr : Bytes
  pub auth : Option Authenticator

connstr_or_default : Bytes → Bytes
unfolding estrdup
connstr_or_default [] = codes "couchbase://127.0.0.1"
connstr_or_default (c ∷ s) = estrdup (c ∷ s)

-- Cluster::__construct
unfoldable pub cluster_construct : Bytes → Cluster
unfolding connstr_or_default
cluster_construct connstr = record { connstr = connstr_or_default connstr; auth = none }

-- Cluster::authenticate and Cluster::authenticateAs
unfoldable pub authenticate : Authenticator → Cluster → Cluster
authenticate auth cluster = record cluster { auth = some auth }

unfoldable pub authenticate_as : Bytes → Bytes → Cluster → Cluster
unfolding password_init
authenticate_as username password cluster = record cluster {
  auth = some (password_based (password_init username password));
}

-- The choice of the generator; an authenticator of another class is left aside.
unfoldable pub generate : Option Authenticator → ℕ → Option Bytes → Option Bytes → Option Generated
generate (some (classic auth)) type name password = generate_classic (some auth) type name password
generate (some (password_based auth)) type name password =
    some (generate_password auth name password)
generate (some other) type name password = generate_classic none type name password
generate none type name password = generate_classic none type name password

-- The object behind a bucket.
pub record BucketObject : Type 0 where
  pub conn : ℕ
  pub encoder : Zval
  pub decoder : Zval

-- Bucket::setTranscoder
unfoldable pub set_transcoder : Zval → Zval → BucketObject → BucketObject
set_transcoder encoder decoder obj = record obj { encoder = encoder; decoder = decoder }

-- How opening ends: a NULL pointer was followed, an exception with a code, or an object.
pub data Opened : Type 0 where
  undefined : Opened
  thrown : ℕ → Opened
  bucket : BucketObject → Pool → Opened
  manager : ℕ → Pool → Opened

c_text : Option Bytes → Option Bytes
unfolding estrdup
c_text none = none
c_text (some text) = some (estrdup text)

bucket_name : Option Bytes → Bytes
unfolding estrdup
bucket_name none = codes "default"
bucket_name (some []) = codes "default"
bucket_name (some (c ∷ s)) = estrdup (c ∷ s)

-- A function in the namespace \Couchbase.
abbrev pub qualified : Bytes → Bytes
qualified name = 92 ∷ codes "Couchbase" ++ 92 ∷ name

bucket_of : Got → Opened
bucket_of (failed err) = thrown err
bucket_of (got conn pool) =
    bucket
      (record {
        conn = conn;
        encoder = string (qualified (codes "defaultEncoder"));
        decoder = string (qualified (codes "defaultDecoder"));
      })
      pool

manager_of : Got → Opened
manager_of (failed err) = thrown err
manager_of (got conn pool) = manager conn pool

module _ (url_parse : Bytes → Option Url) (client : Generated → Client) (md5 : Bytes → Bytes) where
  -- pcbc_bucket_init, from the generated credentials on.
  bucket_with : Pool → Bytes → Bytes → Option Generated → Opened
  unfolding bucket_of
  bucket_with pool connstr name none = undefined
  bucket_with pool connstr name (some g) =
      bucket_of
        (connection_get url_parse (client g) pool type_bucket connstr (some name) (md5 g.hashed))

  unfoldable pub bucket_init : Pool → Cluster → Bytes → Option Bytes → Opened
  unfolding bucket_with generate
  bucket_init pool cluster name password =
      bucket_with pool cluster.connstr name (generate cluster.auth type_bucket (some name) password)

  -- Cluster::openBucket
  unfoldable pub open_bucket : Pool → Cluster → Option Bytes → Option Bytes → Opened
  unfolding bucket_init bucket_name c_text
  open_bucket pool cluster name password =
      bucket_init pool cluster (bucket_name name) (c_text password)

  -- pcbc_cluster_manager_init
  manager_with : Pool → Bytes → Option Generated → Opened
  unfolding manager_of
  manager_with pool connstr none = undefined
  manager_with pool connstr (some g) =
      manager_of (connection_get url_parse (client g) pool type_cluster connstr none (md5 g.hashed))

  unfoldable pub manager_init : Pool → Cluster → Option Bytes → Option Bytes → Opened
  unfolding manager_with generate
  manager_init pool cluster name password =
      manager_with pool cluster.connstr (generate cluster.auth type_cluster name password)

  -- Cluster::manager
  unfoldable pub cluster_manager : Pool → Cluster → Option Bytes → Option Bytes → Opened
  unfolding manager_init c_text
  cluster_manager pool cluster name password =
      manager_init pool cluster (c_text name) (c_text password)
