-- ===== src/Auth/Password.antt =====
-- src/couchbase/password_authenticator.c
use php_couchbase.Base.{Option, none, some, Bytes, codes, ◌++◌, [], ◌∷◌}
use php_couchbase.MutationToken.{estrdup}
use php_couchbase.Auth.{Generated, rbac_mode, for_cluster, add_pass, tag}

-- pcbc_password_authenticator_t
pub record PasswordAuthenticator : Type 0 where
  pub username : Option Bytes
  pub password : Option Bytes

-- PasswordAuthenticator::__construct, and pcbc_password_authenticator_init
unfoldable pub password_construct : PasswordAuthenticator
password_construct = record { username = none; password = none }

unfoldable pub password_init : Bytes → Bytes → PasswordAuthenticator
password_init username password = record { username = some username; password = some password }

unfoldable pub set_username : Bytes → PasswordAuthenticator → PasswordAuthenticator
set_username username auth = record auth { username = some username }

unfoldable pub set_password : Bytes → PasswordAuthenticator → PasswordAuthenticator
set_password password auth = record auth { password = some password }

-- A text that may be NULL, and what of it is hashed.
text_of : Option Bytes → Option Bytes
unfolding estrdup
text_of none = none
text_of (some text) = some (estrdup text)

hashed_of : Option Bytes → Bytes
hashed_of none = []
hashed_of (some text) = text

own_password : PasswordAuthenticator → Generated
unfolding text_of hashed_of
own_password auth = record {
  mode = rbac_mode;
  passes =
      record {
        user = text_of auth.username;
        password = text_of auth.password;
        target = for_cluster;
      }
      ∷ [];
  hashed = tag (codes "rbac") ++ (hashed_of auth.username ++ hashed_of auth.password);
}

-- pcbc_generate_password_lcb_auth
unfoldable pub generate_password : PasswordAuthenticator → Option Bytes → Option Bytes → Generated
unfolding own_password add_pass
generate_password auth (some name) (some password) = record {
  mode = rbac_mode;
  passes = add_pass name password for_cluster ∷ [];
  hashed = tag (codes "rbac-extra") ++ (estrdup name ++ estrdup password);
}
generate_password auth none password = own_password auth
generate_password auth (some name) none = own_password auth
