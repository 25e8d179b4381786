-- ===== src/Bucket/Results/Keys.antt =====
-- The arrays that the store, get and touch operations return, by the responses' keys.
use php_couchbase.Base.{
  ◌≡◌, refl, ap, ◌∙◌, true, List, [], ◌∷◌, Option, none, some, Bytes, bytes_eq, ◌==◌, if◌then◌else◌,
}
use php_couchbase.OpCookie.{OpCookie, push, results, lcb_success}
use php_couchbase.OpCookie
use php_couchbase.Lcb.{Env, Response}
use php_couchbase.Document
use php_couchbase.Document.{Document}
use php_couchbase.Bucket.Results.{
  null, documents, KeyRes, StoreRes, GetRes, deliver, update_key, put_mapped, put_doc, res_document,
  fill, store_callback, touch_callback, proc_store_results, keyed, token_or_zero, get_callback,
  proc_get_results,
}
use php_couchbase.Bucket.Results.Collect.{rows, results-deliver, hash_key_full}
use php_couchbase.Bucket.Results.Mapped.{find, last_document, proc_results-mapped}

-- The document that `doc` makes of the last response whose key is `k`.
abbrev pub latest :
    (Response → Document) → Bytes → List Response → Option Document → Option Document
latest doc k [] found = found
latest doc k (rb ∷ rs) found = latest doc k rs (if bytes_eq rb.key k then some (doc rb) else found)

module _ (env : Env) where
  -- What a response to a store command says: an error, or the CAS and the token.
  abbrev pub stored_document : Response → Document
  stored_document rb =
      if rb.rc == lcb_success
      then Document.init env [] 0 rb.cas (some (token_or_zero rb.mutation_token))
      else Document.init_error rb.rc

  -- What a response to a get command says: an error, or the decoded value and the CAS.
  abbrev pub read_document : Response → Document
  read_document rb =
      if rb.rc == lcb_success
      then Document.init_decode env rb.value rb.itmflags rb.datatype rb.cas none
      else Document.init_error rb.rc

  abbrev pub store_res : Response → KeyRes StoreRes
  store_res rb = keyed rb.key (record { cas = rb.cas; token = token_or_zero rb.mutation_token })

  abbrev pub get_res : Response → KeyRes GetRes
  get_res rb =
      keyed rb.key
        (record { bytes = rb.value; flags = rb.itmflags; datatype = rb.datatype; cas = rb.cas })

  latest-store :
      (k : Bytes) (rs : List Response) (found : Option Document)
      → last_document (λ r. Document.init env [] 0 r.cas (some r.token)) store_res k rs found
        ≡ latest stored_document k rs found
  unfolding res_document
  latest-store k [] found = refl
  latest-store k (rb ∷ rs) found = rw (hash_key_full rb.key) (latest-store k rs _)

  latest-get :
      (k : Bytes) (rs : List Response) (found : Option Document)
      → last_document
          (λ r. Document.init_decode env r.bytes r.flags r.datatype r.cas none)
          get_res
          k
          rs
          found
        ≡ latest read_document k rs found
  unfolding res_document
  latest-get k [] found = refl
  latest-get k (rb ∷ rs) found = rw (hash_key_full rb.key) (latest-get k rs _)

  -- A store operation on an array of ids reports no error code of its own, and the array that it
  -- returns holds under each key the document of the last response with that key: the CAS and the
  -- token, or the response's error.
  pub find-store_results :
      (k : Bytes) (rs : List Response)
      → let r = proc_store_results env (deliver store_callback OpCookie.init rs) true in
        (r.0 ≡ lcb_success) × (find k r.1 ≡ latest stored_document k rs none)
  unfolding proc_store_results store_callback
  find-store_results k rs =
      let m = proc_results-mapped _ store_res store_callback (λ c rb. refl) k rs in
      (m.0, m.1 ∙ latest-store k rs none)

  -- The same for the get operations: the decoded value, its flags and CAS, or the error.
  pub find-get_results :
      (k : Bytes) (rs : List Response)
      → let r = proc_get_results env (deliver get_callback OpCookie.init rs) true in
        (r.0 ≡ lcb_success) × (find k r.1 ≡ latest read_document k rs none)
  unfolding proc_get_results get_callback
  find-get_results k rs =
      let m = proc_results-mapped _ get_res get_callback (λ c rb. refl) k rs in
      (m.0, m.1 ∙ latest-get k rs none)

  -- What a response to a touch command says.
  abbrev pub touched_document : Response → Document
  touched_document rb =
      if rb.rc == lcb_success
      then Document.init env [] 0 rb.cas (some (token_or_zero none))
      else Document.init_error rb.rc

  abbrev touch_res : Response → KeyRes StoreRes
  touch_res rb = record {
    key = rb.key;
    key_len = 0;
    fields = record { cas = rb.cas; token = token_or_zero none };
  }

  abbrev pub last_touched : Document → List Response → Document
  last_touched d [] = d
  last_touched d (rb ∷ rs) = last_touched (touched_document rb) rs

  fill-touch :
      (rs : List Response) (d : Document)
      → fill
          (λ r. Document.init env [] 0 r.cas (some r.token))
          true
          (rows touch_res rs)
          (documents (([], d) ∷ []))
        ≡ documents (([], last_touched d rs) ∷ [])
  unfolding fill put_doc put_mapped update_key res_document bytes_eq
  fill-touch [] d = refl
  fill-touch (rb ∷ rs) d = fill-touch rs (touched_document rb)

  -- A touch operation on an array of ids returns an array with one document, under the empty key,
  -- however many responses arrive: that of the last response.
  pub touch_results-collapse :
      (rb : Response) (rs : List Response)
      → (proc_store_results env (deliver touch_callback OpCookie.init (rb ∷ rs)) true).1
        ≡ documents (([], last_touched (touched_document rb) rs) ∷ [])
  unfolding proc_store_results touch_callback fill put_doc put_mapped res_document
  touch_results-collapse rb rs =
      ap (λ l. fill (λ r. Document.init env [] 0 r.cas (some r.token)) true l null)
        (results-deliver touch_res touch_callback (λ c r. refl) (rb ∷ rs))
      ∙ fill-touch rs (touched_document rb)
