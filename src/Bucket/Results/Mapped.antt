-- ===== src/Bucket/Results/Mapped.antt =====
-- The return value of an operation on an array of ids.
use php_couchbase.Base.{
  ◌≡◌, refl, ap, ◌∙◌, true, inl, inr, List, [], ◌∷◌, Option, none, some, arith, Bytes, bytes_eq,
  bytes_eq_refl, bytes_eq_sound, bytes_eq_apart, if◌then◌else◌, Bool-cases,
}
use php_couchbase.OpCookie.{OpCookie, results, lcb_success}
use php_couchbase.OpCookie
use php_couchbase.Lcb.{Response}
use php_couchbase.Document.{Document}
use php_couchbase.Bucket.Results.{
  Return, null, document, documents, KeyRes, hash_key, deliver, Callback, update_key, put_mapped,
  put_doc, res_document, fill, proc_results,
}
use php_couchbase.Bucket.Results.Collect.{PushesOf, rows, results-deliver}

abbrev pub lookup : Bytes → List (Bytes × Document) → Option Document
lookup k [] = none
lookup k ((j, d) ∷ l) = if bytes_eq j k then some d else lookup k l

-- The document under a key of the returned array.
abbrev pub find : Bytes → Return → Option Document
find k null = none
find k (document d) = none
find k (documents l) = lookup k l

lookup-update_key :
    (key k : Bytes) (d : Document) (l : List (Bytes × Document))
    → lookup k (update_key key d l) ≡ (if bytes_eq key k then some d else lookup k l)
unfolding update_key
lookup-update_key key k d [] = refl
lookup-update_key key k d ((j, e) ∷ l) = elim (Bool-cases (bytes_eq j key)) [
  | inl same ↦ rw (bytes_eq_sound j key same) (rw (bytes_eq_refl key) (ground arith))
  | inr other ↦ rw other (elim (Bool-cases (bytes_eq j k)) [
    | inl here ↦ rw (here, bytes_eq_apart j key k other here) refl
    | inr off ↦ rw off (lookup-update_key key k d l)
  ])
]

find-put_mapped :
    (key k : Bytes) (d : Document) (ret : Return)
    → find k (put_mapped key d ret) ≡ (if bytes_eq key k then some d else find k ret)
unfolding put_mapped
find-put_mapped key k d null = refl
find-put_mapped key k d (document e) = refl
find-put_mapped key k d (documents l) = lookup-update_key key k d l

module _ {ℓ} {A : Type ℓ} (doc_of : A → Document) (res_of : Response → KeyRes A) where
  -- The document of the last response under the key `k`, if there is one.
  abbrev pub last_document : Bytes → List Response → Option Document → Option Document
  last_document k [] found = found
  last_document k (rb ∷ rs) found = last_document k rs (
      if bytes_eq (hash_key (res_of rb).key_len (res_of rb).key) k
      then some (res_document doc_of rb.rc (res_of rb).fields)
      else found)

  find-fill :
      (k : Bytes) (rs : List Response) (ret : Return)
      → find k (fill doc_of true (rows res_of rs) ret) ≡ last_document k rs (find k ret)
  unfolding fill put_doc
  find-fill k [] ret = refl
  find-fill k (rb ∷ rs) ret =
      find-fill k rs _
      ∙ ap (last_document k rs) (
          find-put_mapped (hash_key (res_of rb).key_len (res_of rb).key) k
            (res_document doc_of rb.rc (res_of rb).fields) ret)

  module _ (callback : Callback A) (pushes : PushesOf res_of callback) where
    -- On an array of ids no code is an error of the whole operation, and the array holds for each
    -- key the document of its last response.
    pub proc_results-mapped :
        (k : Bytes) (rs : List Response)
        → let r = proc_results doc_of (deliver callback OpCookie.init rs) true in
          (r.0 ≡ lcb_success) × (find k r.1 ≡ last_document k rs none)
    unfolding proc_results
    proc_results-mapped k rs = (
      refl,
      ap (λ l. find k (fill doc_of true l null)) (results-deliver res_of callback pushes rs)
          ∙ find-fill k rs null,
    )
