-- ===== src/Structures/Element.antt =====
-- bucket.c: mapAdd, mapRemove, mapGet, listPush, listShift, listRemove, listGet, listSet, setAdd and
-- queueRemove.
use php_couchbase.Base.{ℕ, [], List, Option, none, some, Bytes, codes}
use php_couchbase.Zval.{Zval, null}
use php_couchbase.Subdoc.{
  SdCmd, SdFlags, SubdocCmd, SubdocEnv, no_flags, make_path, sd_dict_upsert, sd_array_add_last,
  sd_array_add_first, sd_replace, sd_array_add_unique,
}
use php_couchbase.Subdoc.LookupIn
use php_couchbase.Subdoc.MutateIn
use php_couchbase.Subdoc.MutateIn.{MutateInBuilder, builder_put, builder_remove}
use php_couchbase.Subdoc.Request.{Fragment, Reply, no_reply, thrown, fragment, Sent}
use php_couchbase.Structures.{
  Answer, answered, raised, undefined, send_mutation, read_path, index_path, execute_lookup,
  execute_mutation, first_value, cas_or_zero,
}

module _ (env : SubdocEnv) where
  -- The text that the methods which store an element share. They do not look at FAILURE.
  unfoldable pub put_element : SdCmd → SdFlags → List SubdocCmd → Bytes → Bytes → Zval → Sent Answer
  put_element sdcmd flags sent id path value =
      send_mutation env sent (builder_put env sdcmd (MutateIn.init id 0) path value flags).0

  unfoldable pub map_add : List SubdocCmd → Bytes → Bytes → Zval → Sent Answer
  unfolding put_element
  map_add sent id key value = put_element sd_dict_upsert make_path sent id key value

  unfoldable pub map_remove : List SubdocCmd → Bytes → Bytes → Sent Answer
  map_remove sent id key =
      send_mutation env sent (builder_remove env (MutateIn.init id 0) key no_flags)

  unfoldable pub map_get : List SubdocCmd → Bytes → Bytes → Sent Answer
  map_get sent id key = read_path env sent id key

  unfoldable pub list_push : List SubdocCmd → Bytes → Zval → Sent Answer
  unfolding put_element
  list_push sent id value = put_element sd_array_add_last make_path sent id [] value

  unfoldable pub list_shift : List SubdocCmd → Bytes → Zval → Sent Answer
  unfolding put_element
  list_shift sent id value = put_element sd_array_add_first make_path sent id [] value

  unfoldable pub list_remove : List SubdocCmd → Bytes → ℕ → Sent Answer
  list_remove sent id index =
      send_mutation env sent (builder_remove env (MutateIn.init id 0) (index_path index) no_flags)

  unfoldable pub list_get : List SubdocCmd → Bytes → ℕ → Sent Answer
  list_get sent id index = read_path env sent id (index_path index)

  unfoldable pub list_set : List SubdocCmd → Bytes → ℕ → Zval → Sent Answer
  unfolding put_element
  list_set sent id index value = put_element sd_replace no_flags sent id (index_path index) value

  unfoldable pub set_add : List SubdocCmd → Bytes → Zval → Sent Answer
  unfolding put_element
  set_add sent id value = put_element sd_array_add_unique make_path sent id [] value

  -- The answer of queueRemove: the return value is the first fragment, if no second one replaced it.
  unless_error : Option ℕ → Zval → Answer
  unless_error none val = answered val
  unless_error (some err) val = answered null

  removed : Fragment → Zval → Reply → Answer
  unfolding unless_error
  removed first val (thrown err) = raised err
  removed first val no_reply = unless_error first.error val
  removed first val (fragment second) = unless_error second.error val

  -- The second half of queueRemove.
  unfoldable pub take_out : List SubdocCmd → Bytes → Fragment → Option Zval → Sent Answer
  unfolding removed
  take_out sent id first none = (sent, answered null)
  take_out sent id first (some val) =
      let builder = MutateIn.init id (cas_or_zero first.cas) in
      let r = execute_mutation env sent (builder_remove env builder (codes "[-1]") no_flags) in
      (r.0, removed first val r.1)

  unfoldable pub after_lookup : Bytes → Sent Reply → Sent Answer
  unfolding take_out
  after_lookup id (sent, fragment f) = take_out sent id f (first_value env f.value)
  after_lookup id (sent, r) = (sent, undefined)

  unfoldable pub queue_remove : List SubdocCmd → Bytes → Sent Answer
  unfolding after_lookup
  queue_remove sent id =
      after_lookup id
        (execute_lookup env sent (LookupIn.get env (LookupIn.init env id []) (codes "[-1]") none))
