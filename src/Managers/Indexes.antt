-- ===== src/Managers/Indexes.antt =====
-- src/couchbase/bucket_manager.c, bucket_manager/n1ix_create.c, n1ix_drop.c and n1ix_list.c, and
-- n1ql_index.c: the indexes of N1QL.
pub mod Ignored
use php_couchbase.Base.{
  ℕ, Bool, true, false, List, [], ◌∷◌, Option, none, some, Bytes, codes, bytes_eq, length, map,
  ◌==◌, ◌&&◌, if◌then◌else◌,
}
use php_couchbase.Zval.{Zval, Entries, null, long, array, end}
use php_couchbase.MutationToken.{estrdup}
use php_couchbase.Query.{add_assoc}
use php_couchbase.Search.{numbered}
use php_couchbase.OpCookie
use php_couchbase.OpCookie.{OpCookie, get_first_error, results, lcb_success}
use php_couchbase.OpCookie.Delivered.{deliver}

-- lcb_N1XSPEC, without the type of the index, which is that of a GSI or, for a list, left open.
pub record IndexSpec : Type 0 where
  pub name : Option Bytes
  pub keyspace : Bytes
  pub is_gsi : Bool
  pub is_primary : Bool
  pub is_deferred : Bool
  pub fields : Option Bytes
  pub cond : Option Bytes

-- lcb_RESPN1XMGMT: the code and the texts of the specifications.
pub record IndexResponse : Type 0 where
  pub rc : ℕ
  pub specs : List Bytes

-- What the code calls of libcouchbase and of the engine. `fetch` is php_array_fetch, `fetch_string`
-- php_array_fetch_string.
pub record IndexEnv : Type 0 where
  pub create : IndexSpec → ℕ
  pub drop : IndexSpec → ℕ
  pub list : IndexSpec → ℕ
  pub responses : IndexSpec → List IndexResponse
  pub json_encode : Zval → Option Bytes
  pub json_decode : Bytes → Option Zval
  pub fetch : Zval → Bytes → Option Zval
  pub fetch_string : Zval → Bytes → Option Bytes
  pub key_eexists : ℕ
  pub key_enoent : ℕ

-- A return value and the code that is thrown, `none` on success.
abbrev pub Ended : Type 0
Ended = Zval × Option ℕ

thrown_if : ℕ → Option ℕ
thrown_if err = if err == lcb_success then none else some err

-- The object of one index, as the properties that were set: pcbc_n1ix_init.
copy_property : Bytes → Option Zval → Entries → Entries
unfolding add_assoc
copy_property name none es = es
copy_property name (some z) es = add_assoc name z es

-- LCB_N1XSPEC_T_DEFAULT, T_GSI and T_VIEW
unfoldable pub type_of : Option Bytes → ℕ
unfolding estrdup
type_of none = 0
type_of (some text) =
    if bytes_eq (estrdup text) (codes "view")
    then 2
    else (if bytes_eq (estrdup text) (codes "gsi") then 1 else 0)

-- A keyspace is a C string.
keyspace_spec : Bytes → IndexSpec
keyspace_spec keyspace = record {
  name = none;
  keyspace = keyspace;
  is_gsi = false;
  is_primary = false;
  is_deferred = false;
  fields = none;
  cond = none;
}

module _ (env : IndexEnv) where
  unfoldable pub index_init : Zval → Entries
  unfolding copy_property type_of
  index_init json =
      let named = copy_property (codes "name") (env.fetch json (codes "name")) end in
      let ranked = copy_property (codes "isPrimary") (env.fetch json (codes "is_primary")) named in
      let typed =
        add_assoc (codes "type") (long (type_of (env.fetch_string json (codes "using")))) ranked in
      let held = copy_property (codes "state") (env.fetch json (codes "state")) typed in
      let placed = copy_property (codes "keyspace") (env.fetch json (codes "keyspace_id")) held in
      let spaced =
        copy_property (codes "namespace") (env.fetch json (codes "namespace_id")) placed in
      let keyed = copy_property (codes "fields") (env.fetch json (codes "index_key")) spaced in
      copy_property (codes "condition") (env.fetch json (codes "condition")) keyed

  -- The results of index operations carry no payload but a list's.
  status_of : IndexResponse → ℕ × List Zval
  status_of resp = (resp.rc, [])

  first_status : IndexSpec → ℕ
  unfolding status_of
  first_status spec = get_first_error (deliver status_of OpCookie.init (env.responses spec))

  unless_ignored : Bool → ℕ → ℕ → ℕ
  unless_ignored ignore ignored err = if err == ignored && ignore then lcb_success else err

  -- pcbc_n1ix_create and pcbc_n1ix_drop
  unfoldable pub n1ix_create : IndexSpec → Bool → Ended
  unfolding first_status unless_ignored thrown_if
  n1ix_create spec ignore_if_exist = (
    null,
    thrown_if (
        if env.create spec == lcb_success
        then unless_ignored ignore_if_exist env.key_eexists (first_status spec)
        else env.create spec),
  )

  unfoldable pub n1ix_drop : IndexSpec → Bool → Ended
  unfolding first_status unless_ignored thrown_if
  n1ix_drop spec ignore_if_not_exist = (
    null,
    thrown_if (
        if env.drop spec == lcb_success
        then unless_ignored ignore_if_not_exist env.key_enoent (first_status spec)
        else env.drop spec),
  )

  -- BucketManager::createN1qlPrimaryIndex, createN1qlIndex, dropN1qlPrimaryIndex and dropN1qlIndex
  unfoldable pub create_primary_index : Bytes → Option Bytes → Bool → Bool → Ended
  unfolding n1ix_create keyspace_spec
  create_primary_index keyspace name ignore_if_exist defer =
      n1ix_create
        (record (keyspace_spec keyspace) {
          name = name;
          is_gsi = true;
          is_primary = true;
          is_deferred = defer;
        })
        ignore_if_exist

  create_encoded_index : Bytes → Bytes → Option Bytes → Option Bytes → Bool → Bool → Ended
  unfolding n1ix_create keyspace_spec
  create_encoded_index keyspace name none cond ignore_if_exist defer = (null, none)
  create_encoded_index keyspace name (some fields) cond ignore_if_exist defer =
      n1ix_create
        (record (keyspace_spec keyspace) {
          name = some name;
          is_gsi = true;
          is_deferred = defer;
          fields = some fields;
          cond = cond;
        })
        ignore_if_exist

  unfoldable pub create_index : Bytes → Bytes → Zval → Option Bytes → Bool → Bool → Ended
  unfolding create_encoded_index
  create_index keyspace name fields cond ignore_if_exist defer =
      create_encoded_index keyspace name (env.json_encode fields) cond ignore_if_exist defer

  unfoldable pub drop_primary_index : Bytes → Option Bytes → Bool → Ended
  unfolding n1ix_drop keyspace_spec
  drop_primary_index keyspace name ignore_if_not_exist =
      n1ix_drop (record (keyspace_spec keyspace) { name = name; is_gsi = true; is_primary = true })
        ignore_if_not_exist

  unfoldable pub drop_index : Bytes → Bytes → Bool → Ended
  unfolding n1ix_drop keyspace_spec
  drop_index keyspace name ignore_if_not_exist =
      n1ix_drop (record (keyspace_spec keyspace) { name = some name; is_gsi = true })
        ignore_if_not_exist

  -- n1ix_list_callback, with the object of an index as the array of its properties.
  index_value : Option Zval → Zval
  unfolding index_init
  index_value none = null
  index_value (some json) = array (index_init json)

  index_values : List Bytes → List Zval
  unfolding index_value
  index_values [] = []
  index_values (spec ∷ specs) = index_value (env.json_decode spec) ∷ index_values specs

  unfoldable pub listed_of : IndexResponse → ℕ × List Zval
  unfolding index_values
  listed_of resp = (resp.rc, index_values resp.specs)

  first_list : ℕ → List (ℕ × List Zval) → Zval
  unfolding numbered
  first_list err [] = null
  first_list err ((rc, l) ∷ rs) = if err == lcb_success then array (numbered 0 l) else null

  -- proc_n1ix_list_results and pcbc_n1ix_list
  proc_n1ix_list_results : OpCookie (List Zval) → Ended
  unfolding first_list thrown_if
  proc_n1ix_list_results cookie =
      (first_list (get_first_error cookie) (results cookie), thrown_if (get_first_error cookie))

  unfoldable pub n1ix_list : IndexSpec → Ended
  unfolding proc_n1ix_list_results listed_of thrown_if
  n1ix_list spec =
      if env.list spec == lcb_success
      then proc_n1ix_list_results (deliver listed_of OpCookie.init (env.responses spec))
      else (null, thrown_if (env.list spec))

  -- BucketManager::listN1qlIndexes
  unfoldable pub list_indexes : Bytes → Ended
  unfolding n1ix_list keyspace_spec
  list_indexes keyspace = n1ix_list (keyspace_spec keyspace)
