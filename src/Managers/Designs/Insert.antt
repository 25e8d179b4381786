-- ===== src/Managers/Designs/Insert.antt =====
-- bucket_manager.c: which commands insertDesignDocument sends.
use php_couchbase.Base.{
  ◌≡◌, refl, sym, ap, ◌∙◌, inl, inr, Bool, true, false, List, [], ◌∷◌, ◌++◌, Option, none, some,
  append-nil, Bytes, codes, if◌then◌else◌, Bool-cases,
}
use php_couchbase.Zval.{Zval, Entries, null, array}
use php_couchbase.Http.{
  CmdHttp, HttpEnv, Thrown, http_request, content_type_form, content_type_json, get, put,
}
use php_couchbase.Managers.{Outcome, undefined, done, Left, value}
use php_couchbase.Managers.Designs.{
  design_cmd, error_or, stored_or, insert_encoded, insert_after, insert_design_document,
}

abbrev pub commands_of : Outcome → List CmdHttp
commands_of (undefined sent) = sent
commands_of (done sent thrown left) = sent

-- A reply is an array with an error.
abbrev pub is_missing : HttpEnv → Option Zval → Bool
is_missing env (some (array es)) = env.array_exists es (codes "error")
is_missing env _ = false

-- The command that stores an encoded document.
abbrev pub put_cmds : Bytes → Option Bytes → List CmdHttp
put_cmds name none = []
put_cmds name (some body) = design_cmd put content_type_json name (some body) ∷ []

module _ (env : HttpEnv) where
  sent-http_request :
      (sent : List CmdHttp) (cmd : CmdHttp) (json : Bool)
      → (http_request env sent cmd json).sent ≡ sent ++ cmd ∷ []
  unfolding http_request
  sent-http_request sent cmd json = refl

  commands-error_or :
      (at : List CmdHttp) (left : Left) (all : List CmdHttp) (thrown : List Thrown) (es : Entries)
      (error : Option Bytes)
      → commands_of (error_or env at left all thrown es error) ≡ all
  unfolding error_or
  commands-error_or at left all thrown es none = refl
  commands-error_or at left all thrown es (some error) = refl

  commands-stored_or :
      (at : List CmdHttp) (left : Left) (all : List CmdHttp) (thrown : List Thrown)
      (ret : Option Zval)
      → commands_of (stored_or env at left all thrown ret) ≡ all
  unfolding stored_or
  commands-stored_or at left all thrown none = refl
  commands-stored_or at left all thrown (some (array es)) =
      commands-error_or at left all thrown es (env.array_fetch_string es (codes "error"))
  commands-stored_or at left all thrown (some z) = refl

  commands-insert_encoded :
      (all : List CmdHttp) (thrown : List Thrown) (name : Bytes) (body : Option Bytes)
      → commands_of (insert_encoded env all thrown name body) ≡ all ++ put_cmds name body
  unfolding insert_encoded
  commands-insert_encoded all thrown name none = sym (append-nil all)
  commands-insert_encoded all thrown name (some body) =
      commands-stored_or all (value null) _ _ _
      ∙ sent-http_request all (design_cmd put content_type_json name (some body)) true

  commands-insert_after :
      (all : List CmdHttp) (thrown : List Thrown) (name : Bytes) (document : Zval)
      (ret : Option Zval)
      → commands_of (insert_after env all thrown name document ret)
        ≡ all ++ (if is_missing env ret then put_cmds name (env.json_encode document) else [])
  unfolding insert_after
  commands-insert_after all thrown name document none = sym (append-nil all)
  commands-insert_after all thrown name document (some (array es)) =
      elim (Bool-cases (env.array_exists es (codes "error"))) [
        | inl e ↦ rw e (commands-insert_encoded all thrown name (env.json_encode document))
        | inr e ↦ rw e (sym (append-nil all))
      ]
  commands-insert_after all thrown name document (some z) = sym (append-nil all)

  -- BucketManager::insertDesignDocument sends a request for the design document, and a command that
  -- stores the new one exactly if the reply to the first is an array with an error, which says that
  -- there is none, and the new document can be encoded as JSON.
  pub commands-insert_design_document :
      (sent : List CmdHttp) (name : Bytes) (document : Zval)
      → commands_of (insert_design_document env sent name document)
        ≡ (sent ++ design_cmd get content_type_form name none ∷ [])
          ++ (if is_missing env
                (http_request env sent (design_cmd get content_type_form name none) true).ret
              then put_cmds name (env.json_encode document)
              else [])
  unfolding insert_design_document
  commands-insert_design_document sent name document =
      let asked = design_cmd get content_type_form name none in
      commands-insert_after _ _ name document (http_request env sent asked true).ret
      ∙ ap
          (λ (l : List CmdHttp).
            l
            ++ (if is_missing env (http_request env sent asked true).ret
                then put_cmds name (env.json_encode document)
                else []))
          (sent-http_request sent asked true)
