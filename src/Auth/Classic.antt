-- ===== src/Auth/Classic.antt =====
-- src/couchbase/classic_authenticator.c. The linked list of buckets is a list, whose last element is
-- the tail. The passwords of stored credentials are never NULL.
pub mod Buckets
pub mod Named
use php_couchbase.Base.{
  ℕ, ◌+◌, ◌%◌, ◌^◌, Bool, true, false, List, [], ◌∷◌, ◌++◌, Option, none, some, Bytes, codes,
  length, bytes_eq, ◌==◌, ◌&&◌, ◌||◌, not, if◌then◌else◌,
}
use php_couchbase.MutationToken.{estrdup}
use php_couchbase.Pool.Connstr.{type_bucket}
use php_couchbase.Auth.{
  Generated, Pass, classic_mode, for_cluster, for_bucket, add_pass, tag, strncmp_eq,
}

-- pcbc_credential
pub record Credential : Type 0 where
  pub username : Bytes
  pub password : Bytes

-- pcbc_classic_authenticator_t; `nbuckets` is the pattern of an int.
pub record ClassicAuthenticator : Type 0 where
  pub cluster : Option Credential
  pub buckets : List Credential
  pub nbuckets : ℕ

-- ClassicAuthenticator::__construct
unfoldable pub classic_construct : ClassicAuthenticator
classic_construct = record { cluster = none; buckets = []; nbuckets = 0 }

-- ClassicAuthenticator::cluster
unfoldable pub set_cluster : Bytes → Bytes → ClassicAuthenticator → ClassicAuthenticator
set_cluster username password auth = record auth {
  cluster = some (record { username = username; password = password });
}

-- The test of the search.
unfoldable pub same_name : Bytes → Bytes → Bool
unfolding strncmp_eq
same_name username name = length username == length name && strncmp_eq username name

unfoldable pub is_stored : Bytes → List Credential → Bool
unfolding same_name
is_stored name [] = false
is_stored name (c ∷ cs) =
    let rest = is_stored name cs in if same_name c.username name then true else rest

-- The first credential of the name gets the password; a new one is put behind the tail.
unfoldable pub put_credential : Bytes → Bytes → List Credential → List Credential
unfolding same_name
put_credential name password [] = record { username = name; password = password } ∷ []
put_credential name password (c ∷ cs) =
    let rest = put_credential name password cs in
    if same_name c.username name then record c { password = password } ∷ cs else c ∷ rest

-- ClassicAuthenticator::bucket
unfoldable pub set_bucket : Bytes → Bytes → ClassicAuthenticator → ClassicAuthenticator
unfolding put_credential is_stored
set_bucket name password auth = record auth {
  buckets = put_credential name password auth.buckets;
  nbuckets = if is_stored name auth.buckets then auth.nbuckets else (auth.nbuckets + 1) % 2 ^ 32;
}

cluster_passes : Option Credential → List Pass
unfolding add_pass
cluster_passes none = []
cluster_passes (some c) = add_pass c.username c.password for_cluster ∷ []

cluster_hashed : Option Credential → Bytes
cluster_hashed none = []
cluster_hashed (some c) = tag (codes "cluster") ++ (c.username ++ c.password)

-- `strcmp` with a name; a NULL one is compared only for a bucket, where it is undefined.
same_text : Bytes → Option Bytes → Bool
unfolding estrdup
same_text username none = false
same_text username (some name) = bytes_eq (estrdup username) (estrdup name)

-- Without a password, the credential of the bucket itself is one of the cluster too.
extra_pass : Bool → Credential → List Pass
unfolding add_pass
extra_pass true c = add_pass c.username c.password for_cluster ∷ []
extra_pass false c = []

unfoldable pub bucket_passes : Bool → Option Bytes → List Credential → List Pass
unfolding extra_pass same_text add_pass
bucket_passes bare name [] = []
bucket_passes bare name (c ∷ cs) =
    extra_pass (bare && same_text c.username name) c
    ++ (add_pass c.username c.password for_bucket ∷ bucket_passes bare name cs)

unfoldable pub bucket_hashed : List Credential → Bytes
bucket_hashed [] = []
bucket_hashed (c ∷ cs) = tag (codes "bucket") ++ (c.username ++ c.password) ++ bucket_hashed cs

-- `write_null_password` after the loop.
unfoldable pub write_null : Option Bytes → List Credential → Bool
unfolding strncmp_eq
write_null none cs = true
write_null (some name) [] = true
write_null (some name) (c ∷ cs) = not (strncmp_eq c.username name) && write_null (some name) cs

-- The end of the function, which adds the credential of the call.
is_given : Option Bytes → Bool
is_given none = false
is_given (some password) = true

or_blank : Option Bytes → Bytes
unfolding estrdup
or_blank none = []
or_blank (some password) = estrdup password

own_passes : ℕ → Bool → Bytes → Bytes → List Pass
unfolding add_pass
own_passes type wanted name pass =
    if type == type_bucket
    then (if wanted
        then add_pass name pass for_bucket ∷ add_pass name pass for_cluster ∷ []
        else [])
    else add_pass name pass for_cluster ∷ []

own_tag : ℕ → Bool → Bytes
own_tag type wanted =
    if type == type_bucket
    then (if wanted then tag (codes "extra-bucket") else [])
    else tag (codes "extra-cluster")

generate_named : List Pass → Bytes → ℕ → Bool → Bytes → Bytes → Generated
unfolding own_passes own_tag
generate_named passes hashed type wanted name pass = record {
  mode = classic_mode;
  passes = passes ++ own_passes type wanted name pass;
  hashed = hashed ++ (own_tag type wanted ++ (estrdup name ++ pass));
}

-- `auth->cluster.username || auth->nbuckets`
has_credentials : Option Credential → ℕ → Bool
has_credentials none nbuckets = not (nbuckets == 0)
has_credentials (some c) nbuckets = true

-- An authenticator without credentials is used like NULL.
stored_of : Option ClassicAuthenticator → ClassicAuthenticator
unfolding has_credentials classic_construct
stored_of none = classic_construct
stored_of (some auth) =
    if has_credentials auth.cluster auth.nbuckets then auth else classic_construct

generate_from : ClassicAuthenticator → ℕ → Option Bytes → Option Bytes → Option Generated
unfolding generate_named cluster_passes cluster_hashed bucket_passes bucket_hashed write_null
    is_given or_blank
generate_from auth type none password = none
generate_from auth type (some name) password = some (
    generate_named
      (cluster_passes auth.cluster
        ++ bucket_passes (type == type_bucket && not (is_given password)) (some name) auth.buckets)
      (cluster_hashed auth.cluster ++ bucket_hashed auth.buckets) type
      (is_given password || write_null (some name) auth.buckets) name (or_blank password))

-- pcbc_generate_classic_lcb_auth. `none` is undefined: `strlen` of a name that is NULL.
unfoldable pub generate_classic :
    Option ClassicAuthenticator → ℕ → Option Bytes → Option Bytes → Option Generated
unfolding generate_from stored_of
generate_classic auth type name password = generate_from (stored_of auth) type name password
