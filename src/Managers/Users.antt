-- ===== src/Managers/Users.antt =====
-- src/couchbase/cluster_manager/user_settings.c: what a user is to have.
pub mod Roles
use php_couchbase.Base.{List, [], ◌∷◌, ◌++◌, Option, none, some, Bytes}

-- pcbc_user_settings_t; `roles` is the text of a smart_str.
pub record UserSettings : Type 0 where
  pub full_name : Option Bytes
  pub password : Option Bytes
  pub roles : Bytes

-- UserSettings::__construct
unfoldable pub user_construct : UserSettings
user_construct = record { full_name = none; password = none; roles = [] }

unfoldable pub full_name : Bytes → UserSettings → UserSettings
full_name name user = record user { full_name = some name }

unfoldable pub user_password : Bytes → UserSettings → UserSettings
user_password password user = record user { password = some password }

-- The comma, and the bucket in brackets; no bucket is an empty one.
with_comma : Bytes → Bytes
with_comma [] = []
with_comma (c ∷ s) = (c ∷ s) ++ b',' ∷ []

in_brackets : Bytes → Bytes
in_brackets [] = []
in_brackets (c ∷ s) = b'[' ∷ (c ∷ s) ++ b']' ∷ []

-- UserSettings::role
unfoldable pub role : Bytes → Bytes → UserSettings → UserSettings
unfolding with_comma in_brackets
role name bucket user = record user {
  roles = with_comma user.roles ++ (name ++ in_brackets bucket);
}
