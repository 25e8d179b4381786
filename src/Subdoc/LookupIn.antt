-- ===== src/Subdoc/LookupIn.antt =====
-- src/couchbase/lookup_in_builder.c
pub mod Paths
use php_couchbase.Base.{ℕ, ◌+◌, ◌%◌, ◌^◌, true, List, [], ◌∷◌, ◌++◌, Option, none, some, Bytes}
use php_couchbase.Zval.{Zval, string}
use php_couchbase.Subdoc.{SdCmd, sd_get, sd_exists, SdSpec, SubdocEnv, options_to_flags}

-- pcbc_lookup_in_builder_t; `nspecs` is the 32-bit pattern of an int.
pub record LookupInBuilder : Type 0 where
  pub id : Bytes
  pub nspecs : ℕ
  pub specs : List SdSpec

-- The new specification is linked behind the tail.
unfoldable pub push_spec : LookupInBuilder → SdSpec → LookupInBuilder
push_spec builder spec = record builder {
  nspecs = (builder.nspecs + 1) % 2 ^ 32;
  specs = builder.specs ++ spec ∷ [];
}

module _ (env : SubdocEnv) where
  path_spec : SdCmd → Bytes → Option Zval → SdSpec
  path_spec sdcmd path options = record {
    sdcmd = sdcmd;
    options = options_to_flags env true options;
    path = path;
    value = none;
  }

  -- pcbc_lookup_in_builder_get, which is also LookupInBuilder::get.
  unfoldable pub get : LookupInBuilder → Bytes → Option Zval → LookupInBuilder
  unfolding path_spec push_spec
  get builder path options = push_spec builder (path_spec sd_get path options)

  -- LookupInBuilder::exists
  unfoldable pub exists : LookupInBuilder → Bytes → Option Zval → LookupInBuilder
  unfolding path_spec push_spec
  exists builder path options = push_spec builder (path_spec sd_exists path options)

  -- The loop over the paths of retrieveIn, which skips what is no string.
  add_paths : LookupInBuilder → List Zval → LookupInBuilder
  unfolding get
  add_paths builder [] = builder
  add_paths builder (string path ∷ args) = add_paths (get builder path none) args
  add_paths builder (z ∷ args) = add_paths builder args

  -- pcbc_lookup_in_builder_init
  unfoldable pub init : Bytes → List Zval → LookupInBuilder
  unfolding add_paths
  init id args = add_paths (record { id = id; nspecs = 0; specs = [] }) args
