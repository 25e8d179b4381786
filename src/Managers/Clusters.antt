-- ===== src/Managers/Clusters.antt =====
-- src/couchbase/cluster_manager.c: buckets and users of a cluster.
pub mod Removal
use php_couchbase.Base.{
  ℕ, Bool, true, false, List, [], ◌∷◌, ◌++◌, Option, none, some, Bytes, codes, ◌==◌, ◌&&◌,
  if◌then◌else◌,
}
use php_couchbase.MutationToken.{estrdup}
use php_couchbase.Zval.{Zval, Entries, null, bool, long, string, array, end}
use php_couchbase.Query.{add_assoc}
use php_couchbase.Http.{
  CmdHttp, HttpEnv, Thrown, pcbc, Reply, http_request, view_type, management_type, get, post, put,
  delete,
}
use php_couchbase.Managers.{Outcome, undefined, done, value, plain_outcome, padded, management}
use php_couchbase.Managers.Users.{UserSettings}

-- RBAC_DOMAIN_LOCAL and RBAC_DOMAIN_EXTERNAL
unfoldable pub users_path : ℕ → Option Bytes
users_path domain =
    if domain == 1
    then some (codes "/settings/rbac/users/local")
    else (if domain == 2 then some (codes "/settings/rbac/users/external") else none)

add_field : Bytes → Option Bytes → Entries → Entries
unfolding add_assoc
add_field name none es = es
add_field name (some text) es = add_assoc name (string text) es

add_roles : Bytes → Entries → Entries
unfolding add_assoc
add_roles [] es = es
add_roles (c ∷ s) es = add_assoc (codes "roles") (string (c ∷ s)) es

-- The form of upsertUser.
unfoldable pub user_form : UserSettings → Entries
unfolding add_field add_roles
user_form user =
    add_roles user.roles
      (add_field (codes "password") user.password (add_field (codes "name") user.full_name end))

-- The options of a bucket before those of the caller are merged into them.
unfoldable pub default_options : Bytes → Entries
unfolding add_assoc estrdup
default_options name =
    let named = add_assoc (codes "name") (string (estrdup name)) end in
    let typed =
      add_assoc (codes "bucketType") (string (codes "couchbase"))
        (add_assoc (codes "authType") (string (codes "sasl")) named) in
    add_assoc (codes "replicaNumber") (long 1) (add_assoc (codes "ramQuotaMB") (long 100) typed)

-- Two quotes, or no text.
unfoldable pub is_blank : Bytes → Bool
is_blank [] = true
is_blank (c ∷ []) = false
is_blank (c ∷ d ∷ s) = c == b'"' && d == b'"'

module _ (env : HttpEnv) (sent : List CmdHttp) where
  -- ClusterManager::listBuckets and info
  unfoldable pub list_buckets : Outcome
  unfolding plain_outcome
  list_buckets =
      plain_outcome
        (http_request env sent (management get (codes "/pools/default/buckets") none) true)

  unfoldable pub cluster_info : Outcome
  unfolding plain_outcome
  cluster_info =
      plain_outcome (http_request env sent (management get (codes "/pools/default") none) true)

  merged : Entries → Option Zval → Entries
  merged defaults (some (array es)) = env.array_merge defaults es
  merged defaults _ = defaults

  create_encoded : Option Bytes → Outcome
  unfolding plain_outcome
  create_encoded none = done sent [] (value null)
  create_encoded (some body) =
      plain_outcome
        (http_request env sent (management post (codes "/pools/default/buckets") (some body)) true)

  -- ClusterManager::createBucket
  unfoldable pub create_bucket : Bytes → Option Zval → Outcome
  unfolding create_encoded merged default_options
  create_bucket name options =
      create_encoded (env.url_encode (merged (default_options name) options))

  -- ClusterManager::removeBucket
  unfoldable pub remove_bucket : Bytes → Outcome
  unfolding plain_outcome padded
  remove_bucket name = plain_outcome (
      http_request env sent
        (management delete (codes "/pools/default/buckets/" ++ padded name) none) true)

  -- ClusterManager::listUsers; a domain of another number throws.
  invalid_domain : Outcome
  invalid_domain = done sent (pcbc (codes "Invalid arguments.") env.lcb_einval ∷ []) (value null)

  unfoldable pub list_users : ℕ → Outcome
  unfolding plain_outcome users_path invalid_domain
  list_users domain = elim (users_path domain) [
    | none ↦ invalid_domain
    | some path ↦ plain_outcome (http_request env sent (management get path none) true)
  ]

  -- ClusterManager::getUser, whose command has no content type.
  unfoldable pub get_user : Bytes → ℕ → Outcome
  unfolding plain_outcome users_path invalid_domain padded
  get_user name domain = elim (users_path domain) [
    | none ↦ invalid_domain
    | some path ↦ plain_outcome (
        http_request env sent
          (record (management get (path ++ b'/' ∷ padded name) none) { content_type = none }) true)
  ]

  -- The test of the reply, which is read as a string whatever it is.
  unfoldable pub accepted_or_thrown : List CmdHttp → List Thrown → Option Zval → Outcome
  unfolding is_blank estrdup
  accepted_or_thrown all thrown (some (string s)) =
      if is_blank s
      then done all thrown (value (bool true))
      else done all (thrown ++ pcbc (estrdup s) env.lcb_einval ∷ []) (value null)
  accepted_or_thrown all thrown _ = undefined all

  remove_at : Bytes → Option Bytes → Outcome
  unfolding invalid_domain padded accepted_or_thrown
  remove_at name none = invalid_domain
  remove_at name (some path) =
      let r = http_request env sent (management delete (path ++ b'/' ∷ padded name) none) false in
      accepted_or_thrown r.sent r.thrown r.ret

  -- ClusterManager::removeUser
  unfoldable pub remove_user : Bytes → ℕ → Outcome
  unfolding remove_at
  remove_user name domain = remove_at name (users_path domain)

  upsert_encoded_user : Bytes → Option Bytes → Outcome
  unfolding accepted_or_thrown
  upsert_encoded_user path none = done sent [] (value null)
  upsert_encoded_user path (some body) =
      let r = http_request env sent (management put path (some body)) false in
      accepted_or_thrown r.sent r.thrown r.ret

  -- ClusterManager::upsertUser
  unfoldable pub upsert_user : Bytes → UserSettings → ℕ → Outcome
  unfolding users_path invalid_domain padded upsert_encoded_user user_form
  upsert_user name user domain = elim (users_path domain) [
    | none ↦ invalid_domain
    | some path ↦ upsert_encoded_user (path ++ b'/' ∷ padded name) (env.url_encode (user_form user))
  ]
