-- ===== src/Subdoc.antt =====
-- The sub-document operations: the specifications that a builder collects, and the option flags of
-- src/couchbase/bucket/subdoc.c. LookupIn and MutateIn are the builders, Request is the rest of
-- subdoc.c, with the fragments of src/couchbase/document_fragment.c. A builder's linked list of
-- specifications is the list `specs`, and its tail the end of that list.
pub mod LookupIn
pub mod MutateIn
pub mod Request
use php_couchbase.Base.{
  ℕ, ◌+◌, ◌%◌, ◌^◌, Bool, true, false, not, List, [], ◌∷◌, ◌++◌, Option, none, some, Bytes, codes,
  ◌&&◌, if◌then◌else◌,
}
use php_couchbase.Zval.{Zval, Entries, bool, array}
use php_couchbase.MutationToken.{Mt}
use php_couchbase.Lcb.{Env}

-- lcb_SDSPEC's commands.
pub data SdCmd : Type 0 where
  sd_get sd_exists sd_remove sd_counter sd_dict_add sd_dict_upsert sd_replace : SdCmd
  sd_array_insert sd_array_add_unique sd_array_add_first sd_array_add_last : SdCmd

-- The bits of an option word: LCB_SDSPEC_F_MKINTERMEDIATES, LCB_SDSPEC_F_XATTRPATH and
-- LCB_SDSPEC_F_XATTR_MACROVALUES.
pub record SdFlags : Type 0 where
  pub mkintermediates : Bool
  pub xattrpath : Bool
  pub macrovalues : Bool

abbrev pub no_flags : SdFlags
no_flags = record { mkintermediates = false; xattrpath = false; macrovalues = false }

abbrev pub make_path : SdFlags
make_path = record { mkintermediates = true; xattrpath = false; macrovalues = false }

-- pcbc_sd_spec_t; a value that was not set is `none`.
pub record SdSpec : Type 0 where
  pub sdcmd : SdCmd
  pub options : SdFlags
  pub path : Bytes
  pub value : Option Bytes

-- lcb_CMDSUBDOC
pub record SubdocCmd : Type 0 where
  pub key : Bytes
  pub cas : ℕ
  pub specs : List SdSpec

-- lcb_SDENTRY and lcb_RESPSUBDOC
pub record SdEntry : Type 0 where
  pub status : ℕ
  pub value : Bytes
  pub index : ℕ

pub record SdResponse : Type 0 where
  pub rc : ℕ
  pub cas : ℕ
  pub mutation_token : Option Mt
  pub entries : List SdEntry

-- What these operations call: the functions of `lcb`, the JSON functions and the comparison of the
-- engine, and lcb_subdoc3 with the responses that follow it, given the commands before.
pub record SubdocEnv : Type 0 where
  pub lcb : Env
  pub json_encode : Zval → Option Bytes
  pub json_decode : Bytes → Option Zval
  pub fetch_bool : Entries → Bytes → Bool
  pub is_identical : Zval → Zval → Bool
  pub property_count : ℕ → ℕ
  pub multi_failure : ℕ
  pub submit : List SubdocCmd → SubdocCmd → ℕ
  pub responses : List SubdocCmd → SubdocCmd → List SdResponse

module _ (env : SubdocEnv) where
  array_flags : Bool → Entries → SdFlags
  array_flags is_lookup es = record {
    mkintermediates = not is_lookup && env.fetch_bool es (codes "createPath");
    xattrpath = env.fetch_bool es (codes "xattr");
    macrovalues = not is_lookup && env.fetch_bool es (codes "expandMacroValues");
  }

  -- pcbc_subdoc_options_to_flags with `is_path` set, as every caller has it.
  unfoldable pub options_to_flags : Bool → Option Zval → SdFlags
  unfolding array_flags
  options_to_flags is_lookup none = no_flags
  options_to_flags is_lookup (some (bool b)) = record no_flags {
    mkintermediates = not is_lookup && b;
  }
  options_to_flags is_lookup (some (array es)) = array_flags is_lookup es
  options_to_flags is_lookup (some z) = no_flags
