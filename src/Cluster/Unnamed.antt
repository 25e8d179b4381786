-- ===== src/Cluster/Unnamed.antt =====
-- cluster.c: the calls that follow a NULL pointer.
use php_couchbase.Base.{ℕ, ◌≡◌, ◌≢◌, ◌↔◌, refl, Bool, true, false, Option, none, some, Bytes}
use php_couchbase.Pool.Connstr.{Url, type_bucket, type_cluster}
use php_couchbase.Pool.{Client, Pool, Got, failed, got}
use php_couchbase.Auth.{Generated}
use php_couchbase.Auth.Classic.{generate_classic}
use php_couchbase.Cluster.{
  Cluster, Authenticator, classic, password_based, other, generate, undefined, bucket_of,
  bucket_with, bucket_name, c_text, open_bucket, manager_of, manager_with, cluster_manager,
}

-- The cluster authenticates by a username and a password.
abbrev pub by_password : Option Authenticator → Bool
by_password (some (password_based auth)) = true
by_password _ = false

abbrev pub is_missing : Option Bytes → Bool
is_missing none = true
is_missing (some s) = false

-- Credentials can be generated.
abbrev pub is_made : Option Generated → Bool
is_made none = false
is_made (some g) = true

made_named :
    (auth : Option Authenticator) (type : ℕ) (name : Bytes) (password : Option Bytes)
    → is_made (generate auth type (some name) password) ≡ true
unfolding generate generate_classic
made_named none type name password = refl
made_named (some (classic auth)) type name password = refl
made_named (some (password_based auth)) type name password = refl
made_named (some other) type name password = refl

made_unnamed :
    (auth : Option Authenticator) (type : ℕ) (password : Option Bytes)
    → is_made (generate auth type none password) ≡ by_password auth
unfolding generate generate_classic
made_unnamed none type password = refl
made_unnamed (some (classic auth)) type password = refl
made_unnamed (some (password_based auth)) type password = refl
made_unnamed (some other) type password = refl

bucket_of-defined : (r : Got) → bucket_of r ≢ undefined
unfolding bucket_of
bucket_of-defined (failed err) e = cc
bucket_of-defined (got conn pool) e = cc

manager_of-defined : (r : Got) → manager_of r ≢ undefined
unfolding manager_of
manager_of-defined (failed err) e = cc
manager_of-defined (got conn pool) e = cc

module _ (url_parse : Bytes → Option Url) (client : Generated → Client) (md5 : Bytes → Bytes) where
  bucket_with-defined :
      (pool : Pool) (connstr name : Bytes) (g : Option Generated)
      → is_made g ≡ true
      → bucket_with url_parse client md5 pool connstr name g ≢ undefined
  unfolding bucket_with
  bucket_with-defined pool connstr name none h = cc
  bucket_with-defined pool connstr name (some g) h = bucket_of-defined _

  manager_with-undefined :
      (pool : Pool) (connstr : Bytes) (g : Option Generated)
      → (manager_with url_parse client md5 pool connstr g ≡ undefined) ↔ (is_made g ≡ false)
  unfolding manager_with
  manager_with-undefined pool connstr none = (λ _. refl, λ _. refl)
  manager_with-undefined pool connstr (some g) = (λ e. absurd (manager_of-defined _ e), λ h. cc)

  missing-made :
      (auth : Option Authenticator) (name password : Option Bytes)
      → (is_made (generate auth type_cluster (c_text name) password) ≡ false)
        ↔ ((is_missing name ≡ true) × (by_password auth ≡ false))
  unfolding c_text
  missing-made auth none password =
      rw (made_unnamed auth type_cluster password) (λ e. (refl, e), λ h. h.1)
  missing-made auth (some s) password =
      (λ e. absurd (cc (made_named auth type_cluster _ password)), λ h. cc)

  -- Cluster::openBucket follows no NULL pointer. Cluster::manager does exactly if no username is given
  -- and the cluster does not authenticate by a username and a password.
  pub open_bucket-cluster_manager :
      (pool : Pool) (cluster : Cluster) (name password : Option Bytes)
      → open_bucket url_parse client md5 pool cluster name password ≢ undefined
        × ((cluster_manager url_parse client md5 pool cluster name password ≡ undefined)
            ↔ ((is_missing name ≡ true) × (by_password cluster.auth ≡ false)))
  unfolding open_bucket cluster_manager
  open_bucket-cluster_manager pool cluster name password =
      let unmade =
        manager_with-undefined pool cluster.connstr
          (generate cluster.auth type_cluster (c_text name) (c_text password)) in
      let missing = missing-made cluster.auth name (c_text password) in
      (
        bucket_with-defined pool cluster.connstr (bucket_name name) _
            (made_named cluster.auth type_bucket (bucket_name name) (c_text password)),
        (λ e. missing.0 (unmade.0 e), λ h. unmade.1 (missing.1 h)),
      )
