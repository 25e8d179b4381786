-- ===== src/Cluster/Shared.antt =====
-- cluster.c: which connection a second bucket gets.
use php_couchbase.Base.{ℕ, ◌≡◌, refl, ap, ◌∙◌, sym, ◌++◌, Option, none, some, Bytes, codes}
use php_couchbase.Zval.{string}
use php_couchbase.Pool.Connstr.{Url, type_bucket}
use php_couchbase.Pool.{Client, Pool, Got, failed, got, connection_get, addref, at_address}
use php_couchbase.Pool.Registry.{connection_get-again}
use php_couchbase.Auth.{Generated, tag}
use php_couchbase.Auth.Password.{generate_password, password_init}
use php_couchbase.Cluster.{
  Cluster, authenticate_as, BucketObject, bucket, bucket_of, open_bucket, bucket_name, qualified,
}

-- The object of a bucket on a connection.
abbrev pub object_on : ℕ → BucketObject
object_on conn = record {
  conn = conn;
  encoder = string (qualified (codes "defaultEncoder"));
  decoder = string (qualified (codes "defaultDecoder"));
}

got_of-bucket :
    (r : Got) (b : BucketObject) (q : Pool)
    → bucket_of r ≡ bucket b q
    → (r ≡ got b.conn q) × (b ≡ object_on b.conn)
unfolding bucket_of
got_of-bucket (failed err) b q e = cc
got_of-bucket (got conn pool) b q e = (cc, cc)

module _ (url_parse : Bytes → Option Url) (client : Generated → Client) (md5 : Bytes → Bytes) where
  -- What a cluster that authenticates by a password asks of the pool.
  abbrev asked : Bytes → Bytes → Generated → Pool → Bytes → Got
  asked connstr hash g pool name =
      connection_get url_parse (client g) pool type_bucket connstr (some name) hash

  abbrev own : Bytes → Bytes → Bytes → Generated
  own username password name = generate_password (password_init username password) (some name) none

  open_bucket-authenticate_as :
      (pool : Pool) (cluster : Cluster) (name : Option Bytes) (u p : Bytes)
      → open_bucket url_parse client md5 pool (authenticate_as u p cluster) name none
        ≡ bucket_of (
            asked cluster.connstr
              (md5 (tag (codes "rbac") ++ (u ++ p)))
              (own u p (bucket_name name))
              pool
              (bucket_name name))
  unfolding open_bucket authenticate_as generate_password password_init
  open_bucket-authenticate_as pool cluster name u p = refl

  -- When Cluster::openBucket has given a bucket to a username and a password, a cluster object with the
  -- same connection string and another username and password, whose concatenation is the same text,
  -- gets a bucket of that name on the same connection, and libcouchbase sees nothing of the second
  -- credentials. No password is given to openBucket.
  pub open_bucket-shared :
      (pool q : Pool) (cluster : Cluster) (name : Option Bytes) (u p u' p' : Bytes)
      (b : BucketObject)
      → u ++ p ≡ u' ++ p'
      → open_bucket url_parse client md5 pool (authenticate_as u p cluster) name none ≡ bucket b q
      → open_bucket url_parse client md5 q (authenticate_as u' p' cluster) name none
        ≡ bucket b (record q { conns = at_address addref b.conn q.conns })
  unfolding bucket_of
  open_bucket-shared pool q cluster name u p u' p' b same opened =
      let (first, made) =
        got_of-bucket _ b q (sym (open_bucket-authenticate_as pool cluster name u p) ∙ opened) in
      let again =
        connection_get-again url_parse (client (own u p (bucket_name name)))
          (client (own u' p' (bucket_name name))) pool type_bucket cluster.connstr
          (some (bucket_name name)) (md5 (tag (codes "rbac") ++ (u ++ p))) b.conn q first in
      open_bucket-authenticate_as q cluster name u' p'
      ∙ rw (sym same, again)
          (ap
            (λ (o : BucketObject). bucket o (record q { conns = at_address addref b.conn q.conns }))
            (sym made))
