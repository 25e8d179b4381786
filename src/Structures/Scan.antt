-- ===== src/Structures/Scan.antt =====
-- bucket.c: mapSize, setExists and setRemove, which read the whole document.
use php_couchbase.Base.{
  ℕ, ◌+◌, [], List, Option, none, some, Bytes, Bool, true, false, if◌then◌else◌,
}
use php_couchbase.Zval.{Zval, Entries, undef, end, entry, string, array, object, long, bool, count}
use php_couchbase.Document.{Document}
use php_couchbase.Params.{PpState}
use php_couchbase.Bucket.Results.{document, get_callback, proc_get_results}
use php_couchbase.Bucket.Get.{get_round}
use php_couchbase.Bucket.Schedule.{Ending, returned, unspecified, stuck, run_state}
use php_couchbase.Bucket.Schedule
use php_couchbase.Subdoc.{SubdocCmd, SubdocEnv, no_flags}
use php_couchbase.Subdoc.MutateIn
use php_couchbase.Subdoc.MutateIn.{builder_remove}
use php_couchbase.Subdoc.Request.{Reply, fragment, Sent}
use php_couchbase.Structures.{
  Answer, answered, raised, undefined, index_path, cas_or_zero, execute_mutation,
}

-- The parser's state that the methods fill in by hand.
abbrev pub one_id : Bytes → PpState
one_id id = record {
  args = [];
  arg_req = 1;
  arg_opt = 0;
  arg_named = 0;
  cur_idx = 0;
  zids = string id;
  hash_pos = end;
  id = [];
}

-- `found`: whether there is a position.
unfoldable pub is_found : Option ℕ → Bool
is_found none = false
is_found (some i) = true

module _ (env : SubdocEnv) where
  -- pcbc_bucket_get, with one id and no other argument.
  unfoldable pub get_document : Bytes → Ending
  get_document id =
      run_state env.lcb (some 0) (λ s. get_round none none none s.id) get_callback
        (proc_get_results env.lcb) (one_id id)

  -- What a method makes of the document, if its id is a string and the document is read.
  unfoldable pub with_ending : List SubdocCmd → (Document → Sent Answer) → Ending → Sent Answer
  with_ending sent use_doc (returned (document d)) = use_doc d
  with_ending sent use_doc (Schedule.thrown err) = (sent, raised err)
  with_ending sent use_doc _ = (sent, undefined)

  unfoldable pub with_document :
      List SubdocCmd → Zval → (Bytes → Document → Sent Answer) → Sent Answer
  unfolding with_ending get_document
  with_document sent (string id) use_doc = with_ending sent (use_doc id) (get_document id)
  with_document sent z use_doc = (sent, raised env.lcb.lcb_einval)

  value_size : Option Zval → ℕ
  value_size (some (array es)) = count es
  value_size (some (object h)) = env.property_count h
  value_size _ = 0

  unfoldable pub map_size : List SubdocCmd → Zval → Sent Answer
  unfolding with_document value_size
  map_size sent id = with_document sent id (λ s d. (sent, answered (long (value_size d.value))))

  -- The loop over the set: the position of the first element that is identical, counted from
  -- `index`.
  unfoldable pub find_identical : Zval → Entries → ℕ → Option ℕ
  find_identical val end index = none
  find_identical val (entry k undef es) index = find_identical val es index
  find_identical val (entry k z es) index =
      let rest = find_identical val es (index + 1) in
      if env.is_identical val z then some index else rest

  unfoldable pub position : Zval → Option Zval → Option ℕ
  unfolding find_identical
  position val (some (array es)) = find_identical val es 0
  position val _ = none

  unfoldable pub set_exists : List SubdocCmd → Zval → Zval → Sent Answer
  unfolding with_document position is_found
  set_exists sent id val =
      with_document sent id (λ s d. (sent, answered (bool (is_found (position val d.value)))))

  -- `!has_error`, of the fragment that the return value then is.
  without_error : Option ℕ → Bool
  without_error none = true
  without_error (some err) = false

  removal_answer : Reply → Answer
  unfolding without_error
  removal_answer (fragment f) = answered (bool (without_error f.error))
  removal_answer _ = undefined

  unfoldable pub remove_position : List SubdocCmd → Bytes → ℕ → Option ℕ → Sent Answer
  unfolding removal_answer
  remove_position sent id cas none = (sent, answered (bool false))
  remove_position sent id cas (some found) =
      let builder = builder_remove env (MutateIn.init id cas) (index_path found) no_flags in
      let r = execute_mutation env sent builder in (r.0, removal_answer r.1)

  unfoldable pub set_remove : List SubdocCmd → Zval → Zval → Sent Answer
  unfolding with_document position remove_position
  set_remove sent id val =
      with_document sent id
        (λ s d. remove_position sent s (cas_or_zero d.cas) (position val d.value))
