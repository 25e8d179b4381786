-- ===== src/Managers/Designs.antt =====
-- src/couchbase/bucket_manager.c: a bucket's state and its design documents. The name of the bucket is
-- that of the connection.
pub mod Insert
use php_couchbase.Base.{
  ℕ, Bool, true, false, List, [], ◌∷◌, ◌++◌, Option, none, some, Bytes, codes, if◌then◌else◌,
}
use php_couchbase.Zval.{Zval, Entries, null, bool, array}
use php_couchbase.Http.{
  HttpMethod, CmdHttp, HttpEnv, Thrown, pcbc, Reply, http_request, content_type_form,
  content_type_json, view_type, get, post, put, delete,
}
use php_couchbase.Managers.{
  Outcome, undefined, done, Left, value, freed, plain_outcome, padded, management,
}

bucket_text : Option Bytes → Bytes
bucket_text none = codes "(null)"
bucket_text (some name) = name

bucket_path : Option Bytes → Bytes → Bytes
unfolding bucket_text
bucket_path bucketname suffix =
    codes "/pools/default/buckets/" ++ (bucket_text bucketname ++ suffix)

-- A command on a design document.
unfoldable pub design_cmd : HttpMethod → Option Bytes → Bytes → Option Bytes → CmdHttp
unfolding padded
design_cmd method content_type name body = record {
  type = view_type;
  method = method;
  path = some (codes "/_design/" ++ padded name);
  content_type = content_type;
  body = body;
}

module _ (env : HttpEnv) (sent : List CmdHttp) where
  -- BucketManager::info, flush and listDesignDocuments
  unfoldable pub bucket_info : Option Bytes → Outcome
  unfolding bucket_path plain_outcome
  bucket_info bucketname =
      plain_outcome (http_request env sent (management get (bucket_path bucketname []) none) true)

  unfoldable pub flush : Option Bytes → Outcome
  unfolding bucket_path plain_outcome
  flush bucketname = plain_outcome (
      http_request env sent
        (management post (bucket_path bucketname (codes "/controller/doFlush")) none) true)

  unfoldable pub list_design_documents : Option Bytes → Outcome
  unfolding bucket_path plain_outcome
  list_design_documents bucketname =
      plain_outcome
        (http_request env sent (management get (bucket_path bucketname (codes "/ddocs")) none) true)

  -- BucketManager::removeDesignDocument
  unfoldable pub remove_design_document : Bytes → Outcome
  unfolding design_cmd plain_outcome
  remove_design_document name =
      plain_outcome (http_request env sent (design_cmd delete content_type_form name none) true)

  -- BucketManager::getDesignDocument: `false` if there is none.
  found_or_false : List CmdHttp → List Thrown → Option Zval → Outcome
  found_or_false all thrown (some (array es)) =
      if env.array_exists es (codes "error")
      then done all thrown (value (bool false))
      else done all thrown (value (array es))
  found_or_false all thrown _ = undefined all

  unfoldable pub get_design_document : Bytes → Outcome
  unfolding design_cmd found_or_false
  get_design_document name =
      let r = http_request env sent (design_cmd get content_type_form name none) true in
      found_or_false r.sent r.thrown r.ret

  -- The error that the server reports throws; `left` is what then remains of the return value.
  error_or : Left → List CmdHttp → List Thrown → Entries → Option Bytes → Outcome
  error_or left all thrown es none = done all thrown (value (array es))
  error_or left all thrown es (some error) = done all (thrown ++ pcbc error env.lcb_error ∷ []) left

  stored_or : Left → List CmdHttp → List Thrown → Option Zval → Outcome
  unfolding error_or
  stored_or left all thrown (some (array es)) =
      error_or left all thrown es (env.array_fetch_string es (codes "error"))
  stored_or left all thrown _ = undefined all

  -- BucketManager::upsertDesignDocument, which returns what it has released when the server reports an
  -- error.
  upsert_encoded : Bytes → Option Bytes → Outcome
  unfolding design_cmd stored_or
  upsert_encoded name none = done sent [] (value null)
  upsert_encoded name (some body) =
      let r = http_request env sent (design_cmd put content_type_json name (some body)) true in
      stored_or freed r.sent r.thrown r.ret

  unfoldable pub upsert_design_document : Bytes → Zval → Outcome
  unfolding upsert_encoded
  upsert_design_document name document = upsert_encoded name (env.json_encode document)

module _ (env : HttpEnv) where
  -- BucketManager::insertDesignDocument, from the second request on; the first value was released.
  insert_encoded : List CmdHttp → List Thrown → Bytes → Option Bytes → Outcome
  unfolding design_cmd stored_or
  insert_encoded all thrown name none = done all thrown (value null)
  insert_encoded all thrown name (some body) =
      let r = http_request env all (design_cmd put content_type_json name (some body)) true in
      stored_or env all (value null) r.sent (thrown ++ r.thrown) r.ret

  insert_after : List CmdHttp → List Thrown → Bytes → Zval → Option Zval → Outcome
  unfolding insert_encoded
  insert_after all thrown name document (some (array es)) =
      if env.array_exists es (codes "error")
      then insert_encoded all thrown name (env.json_encode document)
      else done all (thrown ++ pcbc (codes "Design document already exists") env.key_eexists ∷ [])
          (value null)
  insert_after all thrown name document _ = undefined all

  unfoldable pub insert_design_document : List CmdHttp → Bytes → Zval → Outcome
  unfolding design_cmd insert_after
  insert_design_document sent name document =
      let r = http_request env sent (design_cmd get content_type_form name none) true in
      insert_after r.sent r.thrown name document r.ret
