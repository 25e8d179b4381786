-- ===== src/Subdoc/Request/Single.antt =====
-- subdoc.c: a request that one response answers.
use php_couchbase.Base.{◌≡◌, refl, Bool, List, [], ◌∷◌, ◌++◌, none, some, ◌==◌, ◌||◌, if◌then◌else◌}
use php_couchbase.Zval.{end}
use php_couchbase.OpCookie
use php_couchbase.OpCookie.{lcb_success, results, push}
use php_couchbase.OpCookie.Chain.{init-IsLinked}
use php_couchbase.OpCookie.Linked.{results-push, results-init}
use php_couchbase.Document.{cas_encode}
use php_couchbase.Subdoc.{SubdocCmd, SdResponse, SubdocEnv}
use php_couchbase.Subdoc.Request.{
  SubdocRes, entry_values, token_of, subdoc_callback, deliver_subdoc, fragment_of, last_fragment,
  proc_subdoc_results, fragment, reply_of, subdoc_request,
}

module _ (env : SubdocEnv) (is_lookup : Bool) where
  -- What the callback stores.
  abbrev pub stored_res : SdResponse → SubdocRes
  stored_res rb = record {
    value = entry_values env is_lookup 0 rb.entries end;
    cas =
        if rb.rc == lcb_success || rb.rc == env.multi_failure
        then some (cas_encode rb.cas)
        else none;
    token = token_of env rb.mutation_token;
  }

  proc_subdoc_results-single :
      (rb : SdResponse)
      → proc_subdoc_results env (deliver_subdoc env is_lookup OpCookie.init (rb ∷ []))
        ≡ some (fragment_of env rb.rc (stored_res rb))
  unfolding proc_subdoc_results deliver_subdoc subdoc_callback last_fragment
  proc_subdoc_results-single rb =
      rw (results-push OpCookie.init rb.rc (stored_res rb) init-IsLinked, results-init) refl

  -- An accepted request with one response replies with that response's fragment.
  pub subdoc_request-single :
      (sent : List SubdocCmd) (cmd : SubdocCmd) (rb : SdResponse)
      → env.submit sent cmd ≡ lcb_success
      → env.responses sent cmd ≡ rb ∷ []
      → subdoc_request env is_lookup sent (some cmd)
        ≡ (sent ++ cmd ∷ [], fragment (fragment_of env rb.rc (stored_res rb)))
  unfolding subdoc_request reply_of
  subdoc_request-single sent cmd rb s r = rw (s, r, proc_subdoc_results-single rb) refl
