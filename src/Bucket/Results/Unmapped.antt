-- ===== src/Bucket/Results/Unmapped.antt =====
-- The return value of an operation on one id, given as a string.
use php_couchbase.Base.{
  ℕ, ◌≡◌, refl, ap, ◌∙◌, true, false, inl, inr, List, [], ◌∷◌, arith, ◌==◌, if◌then◌else◌,
  Bool-cases,
}
use php_couchbase.OpCookie.{OpCookie, results, lcb_success, get_first_error}
use php_couchbase.OpCookie
use php_couchbase.Lcb.{Response}
use php_couchbase.Document.{Document}
use php_couchbase.Bucket.Results.{
  Return, null, document, KeyRes, deliver, Callback, put_doc, res_document, fill, proc_results,
}
use php_couchbase.Bucket.Results.Collect.{
  PushesOf, rows, first_rc, results-deliver, get_first_error-deliver,
}

module _ {ℓ} {A : Type ℓ} (doc_of : A → Document) (res_of : Response → KeyRes A) where
  -- The document of the last response, where none has failed.
  abbrev pub last_return : List Response → Return → Return
  last_return [] ret = ret
  last_return (rb ∷ rs) ret = last_return rs (document (doc_of (res_of rb).fields))

  res_document_fine :
      (rc : ℕ) (fields : A)
      → (rc == lcb_success) ≡ true
      → res_document doc_of rc fields ≡ doc_of fields
  unfolding res_document
  res_document_fine rc fields h = rw h refl

  fill-single :
      (rs : List Response) (ret : Return)
      → first_rc rs ≡ lcb_success
      → fill doc_of false (rows res_of rs) ret ≡ last_return rs ret
  unfolding fill put_doc
  fill-single [] ret h = refl
  fill-single (rb ∷ rs) ret h = elim (Bool-cases (rb.rc == lcb_success)) [
    | inl fine ↦
        ap (λ d. fill doc_of false (rows res_of rs) (document d))
          (res_document_fine rb.rc (res_of rb).fields fine)
        ∙ fill-single rs _ (ground arith)
    | inr bad ↦ absurd (ground arith)
  ]

  module _ (callback : Callback A) (pushes : PushesOf res_of callback) where
    -- On one id the first failed response is the error of the operation; without one the return
    -- value is the document of the last response.
    pub proc_results-single :
        (rs : List Response)
        → proc_results doc_of (deliver callback OpCookie.init rs) false
          ≡ (first_rc rs, if first_rc rs == lcb_success then last_return rs null else null)
    unfolding proc_results
    proc_results-single rs =
        rw (get_first_error-deliver res_of callback pushes rs)
          (elim (Bool-cases (first_rc rs == lcb_success)) [
            | inl fine ↦ rw fine (
                ap (λ (r : Return). let p : ℕ × Return = (first_rc rs, r) in p)
                  (ap (λ l. fill doc_of false l null) (results-deliver res_of callback pushes rs)
                    ∙ fill-single rs null (ground arith)))
            | inr bad ↦ rw bad refl
          ])
