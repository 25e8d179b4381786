-- ===== src/Structures/Writes.antt =====
-- bucket.c: the commands of the methods that store or remove an element without reading first.
use php_couchbase.Base.{
  ℕ, ◌≡◌, refl, [], ◌∷◌, ◌++◌, List, Option, none, some, Bytes, Option-cases, inl, inr, append-nil,
  sym,
}
use php_couchbase.Zval.{Zval}
use php_couchbase.Subdoc.{
  SdCmd, SdFlags, SubdocCmd, SubdocEnv, no_flags, make_path, sd_dict_upsert, sd_array_add_last,
  sd_array_add_first, sd_replace, sd_array_add_unique, sd_remove,
}
use php_couchbase.Subdoc.MutateIn.{builder_remove, push_spec, init}
use php_couchbase.Subdoc.MutateIn.Built.{
  builder_put-none, builder_put-some, builder_remove-push_spec,
}
use php_couchbase.Subdoc.Request.{mutate_cmd, subdoc_request}
use php_couchbase.Structures.{index_path, send_mutation, execute_mutation}
use php_couchbase.Structures.Element.{
  put_element, map_add, map_remove, list_push, list_shift, list_remove, list_set, set_add,
}

-- One command of one specification, on whatever CAS the document has.
abbrev pub single : Bytes → SdCmd → SdFlags → Bytes → Option Bytes → List SubdocCmd
single id sdcmd flags path value =
    record {
      key = id;
      cas = 0;
      specs = record { sdcmd = sdcmd; options = flags; path = path; value = value } ∷ [];
    }
    ∷ []

-- The same for an encoded value, if there is one.
abbrev pub encoded : Bytes → SdCmd → SdFlags → Bytes → Option Bytes → List SubdocCmd
encoded id sdcmd flags path none = []
encoded id sdcmd flags path (some text) = single id sdcmd flags path (some text)

module _ (env : SubdocEnv) (sent : List SubdocCmd) (id : Bytes) where
  put_element_sends :
      (sdcmd : SdCmd) (flags : SdFlags) (path : Bytes) (value : Zval)
      → (put_element env sdcmd flags sent id path value).0
        ≡ sent ++ encoded id sdcmd flags path (env.json_encode value)
  unfolding put_element send_mutation execute_mutation push_spec init mutate_cmd subdoc_request
  put_element_sends sdcmd flags path value = elim (Option-cases (env.json_encode value)) [
    | inl n ↦
        rw (builder_put-none env sdcmd (init id 0) path value flags n, n) (sym (append-nil sent))
    | inr (text, e) ↦ rw (builder_put-some env sdcmd (init id 0) path value flags text e, e) refl
  ]

  remove_sends :
      (path : Bytes)
      → (send_mutation env sent (builder_remove env (init id 0) path no_flags)).0
        ≡ sent ++ single id sd_remove no_flags path none
  unfolding send_mutation execute_mutation push_spec init mutate_cmd subdoc_request
  remove_sends path = rw (builder_remove-push_spec env (init id 0) path no_flags) refl

  -- mapAdd, listPush, listShift, listSet and setAdd send one command with one specification, of the
  -- operation that each stands for, if the value can be encoded as JSON, and otherwise none;
  -- mapRemove and listRemove send one command that removes the element. No command has a CAS.
  pub writes-single :
      (key : Bytes) (index : ℕ) (value : Zval)
      → ((map_add env sent id key value).0
          ≡ sent ++ encoded id sd_dict_upsert make_path key (env.json_encode value))
        × ((list_push env sent id value).0
            ≡ sent ++ encoded id sd_array_add_last make_path [] (env.json_encode value))
        × ((list_shift env sent id value).0
            ≡ sent ++ encoded id sd_array_add_first make_path [] (env.json_encode value))
        × ((list_set env sent id index value).0
            ≡ sent ++ encoded id sd_replace no_flags (index_path index) (env.json_encode value))
        × ((set_add env sent id value).0
            ≡ sent ++ encoded id sd_array_add_unique make_path [] (env.json_encode value))
        × ((map_remove env sent id key).0 ≡ sent ++ single id sd_remove no_flags key none)
        × ((list_remove env sent id index).0
            ≡ sent ++ single id sd_remove no_flags (index_path index) none)
  unfolding map_add map_remove list_push list_shift list_remove list_set set_add
  writes-single key index value = (
    put_element_sends sd_dict_upsert make_path key value,
    put_element_sends sd_array_add_last make_path [] value,
    put_element_sends sd_array_add_first make_path [] value,
    put_element_sends sd_replace no_flags (index_path index) value,
    put_element_sends sd_array_add_unique make_path [] value,
    remove_sends key,
    remove_sends (index_path index),
  )
