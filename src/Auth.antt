-- ===== src/Auth.antt =====
-- The authenticators of src/couchbase: what they hold, and the credentials and the hash that they make
-- for libcouchbase. Classic is classic_authenticator.c, Password is password_authenticator.c.
-- A length is below 2^31, so that an int holds it. MD5 is a parameter, on all that was fed to it.
pub mod Classic
pub mod Password
use php_couchbase.Base.{
  ℕ, Bool, true, false, List, [], ◌∷◌, Option, none, some, Bytes, codes, ◌++◌, ◌==◌, if◌then◌else◌,
}
use php_couchbase.MutationToken.{estrdup}

-- LCBAUTH_MODE_CLASSIC and LCBAUTH_MODE_RBAC, LCBAUTH_F_CLUSTER and LCBAUTH_F_BUCKET
pub data Mode : Type 0 where
  classic_mode rbac_mode : Mode

pub data Target : Type 0 where
  for_cluster for_bucket : Target

-- A call of lcbauth_add_pass, whose texts are C strings or NULL.
pub record Pass : Type 0 where
  pub user : Option Bytes
  pub password : Option Bytes
  pub target : Target

-- The authenticator that libcouchbase gets, as the calls that fill it, and the bytes that the hash is of.
pub record Generated : Type 0 where
  pub mode : Mode
  pub passes : List Pass
  pub hashed : Bytes

unfoldable pub add_pass : Bytes → Bytes → Target → Pass
unfolding estrdup
add_pass user password target = record {
  user = some (estrdup user);
  password = some (estrdup password);
  target = target;
}

-- A literal with its terminator, as `sizeof` counts it.
abbrev pub tag : Bytes → Bytes
tag text = text ++ 0 ∷ []

-- `strncmp(a, b, n) == 0`, where n is the length of the first text; the end of the second is its
-- terminator.
unfoldable pub strncmp_eq : Bytes → Bytes → Bool
strncmp_eq [] b = true
strncmp_eq (c ∷ a) [] = c == 0
strncmp_eq (c ∷ a) (d ∷ b) =
    let rest = strncmp_eq a b in if c == d then (if c == 0 then true else rest) else false
