-- ===== src/Structures.antt =====
-- The data structures of src/couchbase/bucket.c, maps, lists, sets and queues in one document each,
-- and its methods that make the builders. A method gives the sub-document commands that it sent
-- after those before it, and its answer. The functions that read or write elements are in Element;
-- those that scan a document are in Scan.
pub mod Element
pub mod Scan
pub mod Writes
pub mod Queue
pub mod Retrieve
pub mod Sets
use php_couchbase.Base.{
  ℕ, List, [], ◌∷◌, Option, none, some, Bytes, codes, Bool, true, false, ◌++◌, ◌==◌, if◌then◌else◌,
}
use php_couchbase.Decimal.{signed_decimal}
use php_couchbase.Base36.{decode_str}
use php_couchbase.Zval.{Zval, Entries, null, string, array}
use php_couchbase.Document.{cas_decode}
use php_couchbase.Subdoc.{SubdocCmd, SubdocEnv}
use php_couchbase.Subdoc.LookupIn
use php_couchbase.Subdoc.LookupIn.{LookupInBuilder}
use php_couchbase.Subdoc.MutateIn
use php_couchbase.Subdoc.MutateIn.{MutateInBuilder}
use php_couchbase.Subdoc.Request.{
  Fragment, Reply, no_reply, thrown, fragment, lookup_cmd, mutate_cmd, Sent, subdoc_request,
}

-- How a method ends: with its return value, an exception of this code, or undefined behaviour, as
-- when it reads a property of a return value that is no object.
pub data Answer : Type 0 where
  answered : Zval → Answer
  raised : ℕ → Answer
  undefined : Answer

-- Bucket::lookupIn
unfoldable pub lookup_in : SubdocEnv → Bytes → LookupInBuilder
lookup_in env id = LookupIn.init env id []

-- Bucket::mutateIn; a CAS that was not given is empty.
unfoldable pub mutate_in : Bytes → Bytes → MutateInBuilder
mutate_in id cas = MutateIn.init id (decode_str cas)

module _ (env : SubdocEnv) where
  -- Bucket::retrieveIn, and LookupInBuilder::execute and MutateInBuilder::execute.
  unfoldable pub retrieve_in : List SubdocCmd → Bytes → List Zval → Sent Reply
  retrieve_in sent id [] = (sent, thrown env.lcb.lcb_einval)
  retrieve_in sent id (z ∷ args) =
      subdoc_request env true sent (lookup_cmd (LookupIn.init env id (z ∷ args)))

  unfoldable pub execute_lookup : List SubdocCmd → LookupInBuilder → Sent Reply
  execute_lookup sent builder = subdoc_request env true sent (lookup_cmd builder)

  unfoldable pub execute_mutation : List SubdocCmd → MutateInBuilder → Sent Reply
  execute_mutation sent builder = subdoc_request env false sent (mutate_cmd builder)

  -- The methods that return null whatever the reply says.
  null_answer : Reply → Answer
  null_answer (thrown err) = raised err
  null_answer _ = answered null

  unfoldable pub send_mutation : List SubdocCmd → MutateInBuilder → Sent Answer
  unfolding null_answer execute_mutation
  send_mutation sent builder = let r = execute_mutation sent builder in (r.0, null_answer r.1)

  -- What the results of a lookup hold under "value", for its first path. `none` is null.
  unfoldable pub entry_field : Option Zval → Option Zval
  entry_field (some (array es)) = env.lcb.fetch es (codes "value")
  entry_field _ = none

  unfoldable pub first_value : Option Zval → Option Zval
  unfolding entry_field
  first_value (some (array es)) = entry_field (env.lcb.fetchn es 0)
  first_value _ = none

  unfoldable pub value_or_null : Option Zval → Zval
  value_or_null none = null
  value_or_null (some z) = z

  -- One lookup and its first value.
  read_answer : Reply → Answer
  unfolding first_value value_or_null
  read_answer (fragment f) = answered (value_or_null (first_value f.value))
  read_answer _ = undefined

  unfoldable pub read_path : List SubdocCmd → Bytes → Bytes → Sent Answer
  unfolding read_answer execute_lookup
  read_path sent id path =
      let r = execute_lookup sent (LookupIn.get env (LookupIn.init env id []) path none) in
      (r.0, read_answer r.1)

-- `spprintf(&path, 0, "[%ld]", index)`
unfoldable pub index_path : ℕ → Bytes
index_path index = b'[' ∷ (signed_decimal index ++ b']' ∷ [])

-- A CAS that is read from a property.
unfoldable pub cas_or_zero : Option Zval → ℕ
cas_or_zero (some (string s)) = cas_decode (string s)
cas_or_zero _ = 0
