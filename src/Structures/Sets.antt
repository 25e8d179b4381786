-- ===== src/Structures/Sets.antt =====
-- bucket.c: what setExists and setRemove find, and what setRemove sends.
use php_couchbase.Base.{
  ℕ, suc, ◌+◌, ◌<◌, ◌≡◌, ◌⊎◌, inl, inr, refl, ap, sym, ◌∙◌, Bool, true, false, List, [], ◌∷◌, ◌++◌,
  Option, none, some, Bytes, arith, length, ◌==◌, append-nil,
}
use php_couchbase.Base36.{u64_mod}
use php_couchbase.Zval.{Zval, Entries, undef, end, entry, string, array, bool}
use php_couchbase.OpCookie.{lcb_success}
use php_couchbase.Lcb.{Command, Response, get}
use php_couchbase.Transcoding.{decode_value}
use php_couchbase.Document
use php_couchbase.Document.{Document, cas_encode, cas_decode}
use php_couchbase.Bucket.Get.{get_round}
use php_couchbase.Bucket.Get.Locks.{get_round-times}
use php_couchbase.Params.{PpState, is_mapped, keycount}
use php_couchbase.Bucket.Results.Keys.{get_res}
use php_couchbase.Bucket.Results.{document, get_callback, proc_get_results}
use php_couchbase.Bucket.Schedule.{Round, returned, run_state, after_loop}
use php_couchbase.Bucket.Schedule.One.{schedule-one}
use php_couchbase.Bucket.Schedule.Outcomes.{conclude-single}
use php_couchbase.Subdoc.{SubdocCmd, SubdocEnv, no_flags, sd_remove}
use php_couchbase.Subdoc.MutateIn.{init, push_spec}
use php_couchbase.Subdoc.MutateIn.Built.{spec_with, builder_remove-push_spec}
use php_couchbase.Subdoc.Request.{mutate_cmd, subdoc_request}
use php_couchbase.Structures.{answered, index_path, execute_mutation}
use php_couchbase.Structures.Queue.{cas_or_zero-encode}
use php_couchbase.Structures.Scan.{
  get_document, find_identical, position, with_ending, is_found, set_exists, set_remove,
  remove_position, with_document,
}

-- The elements of an array, in order.
abbrev pub elements : Entries → List Zval
elements end = []
elements (entry k undef es) = elements es
elements (entry k z es) = z ∷ elements es

-- The position of the first element that passes a test: `none` if none does.
pub data First (test : Zval → Bool) : List Zval → Option ℕ → Type 0 where
  absent : First test [] none
  here : (z : Zval) (zs : List Zval) → test z ≡ true → First test (z ∷ zs) (some 0)
  later :
      (z : Zval) (zs : List Zval) (i : ℕ)
      → test z ≡ false
      → First test zs (some i)
      → First test (z ∷ zs) (some (suc i))
  nowhere :
      (z : Zval) (zs : List Zval) → test z ≡ false → First test zs none → First test (z ∷ zs) none

abbrev pub plain_get : Bytes → Command
plain_get id = get (record { key = id; lock = 0; exptime = 0; hashkey = none })

abbrev pub element_removal : Bytes → ℕ → Option ℕ → List SubdocCmd
element_removal id cas none = []
element_removal id cas (some i) =
    record { key = id; cas = cas; specs = spec_with sd_remove no_flags (index_path i) none ∷ [] }
    ∷ []

abbrev shift : ℕ → Option ℕ → Option ℕ
shift n none = none
shift n (some i) = some (n + i)

shift-zero : (n : ℕ) → some n ≡ shift n (some 0)
shift-zero n = ap some (omega arith)

shift-none : (o : Option ℕ) → shift 0 o ≡ o
shift-none none = refl
shift-none (some i) = ap some (omega arith)

abbrev bump : Option ℕ → Option ℕ
bump none = none
bump (some i) = some (suc i)

shift-bump : (n : ℕ) (o : Option ℕ) → shift n (bump o) ≡ shift (n + 1) o
shift-bump n none = refl
shift-bump n (some i) = ap some (omega arith)

module _ {test : Zval → Bool} where
  First-nil : {o : Option ℕ} → First test [] o → o ≡ none
  First-nil absent = refl

  First-step :
      {z : Zval} {zs : List Zval} {o : Option ℕ}
      → First test (z ∷ zs) o
      → ((test z ≡ true) × (o ≡ some 0))
        ⊎ ((test z ≡ false) × ((p : Option ℕ) × (o ≡ bump p) × First test zs p))
  First-step (here z zs e) = inl (e, refl)
  First-step (later z zs i e f) = inr (e, (some i, refl, f))
  First-step (nowhere z zs e f) = inr (e, (none, refl, f))

module _ (env : SubdocEnv) where
  get_document-single :
      (id : Bytes) (rb : Response)
      → env.lcb.submit [] (plain_get id) ≡ lcb_success
      → env.lcb.wait (plain_get id ∷ []) ≡ rb ∷ []
      → rb.rc ≡ lcb_success
      → get_document env id
        ≡ returned
            (document (Document.init_decode env.lcb rb.value rb.itmflags rb.datatype rb.cas none))
  unfolding get_document run_state after_loop proc_get_results is_mapped keycount get_callback
  get_document-single id rb accepted replied fine =
      let round : PpState → Round = λ s. get_round none none none s.id in
      let loop =
        schedule-one env.lcb round (some 0) id (plain_get id) (get_round-times none none none id)
          accepted in
      ap (λ x. after_loop env.lcb get_callback (proc_get_results env.lcb) false x) loop
      ∙ conclude-single env.lcb _ (get_res env.lcb) get_callback (λ c r. refl)
          (record { nscheduled = 1; err = some lcb_success; accepted = plain_get id ∷ [] })
      ∙ rw (replied, fine) refl

  find_identical-First :
      (val : Zval) (es : Entries) (index : ℕ) (o : Option ℕ)
      → First (env.is_identical val) (elements es) o
      → find_identical env val es index ≡ shift index o
  unfolding find_identical
  find_identical-First val end index o f = ap (shift index) (sym (First-nil f))
  find_identical-First val (entry k undef es) index o f = find_identical-First val es index o f
  find_identical-First val (entry k z es) index o f = elim (First-step f) [
    | inl (same, e) ↦ rw (same, e) (shift-zero index)
    | inr (other, (p, e, g)) ↦
        rw (other, e) (find_identical-First val es (index + 1) p g ∙ sym (shift-bump index p))
  ]

  remove_position_sends :
      (sent : List SubdocCmd) (id : Bytes) (cas : ℕ) (o : Option ℕ)
      → (remove_position env sent id cas o).0 ≡ sent ++ element_removal id cas o
  unfolding remove_position execute_mutation mutate_cmd subdoc_request push_spec init
  remove_position_sends sent id cas none = sym (append-nil sent)
  remove_position_sends sent id cas (some i) =
      rw (builder_remove-push_spec env (init id cas) (index_path i) no_flags) refl

  -- If `o` is the position of the first element of the set that is identical to the value, or there
  -- is none, then setExists answers whether there is one, and the only command that setRemove sends
  -- is the removal of that position on the CAS that the document was read with, or none. This is
  -- for a set that libcouchbase finds in one response, with a 64-bit CAS, and that is decoded to an
  -- array.
  pub sets-First :
      (sent : List SubdocCmd) (id : Bytes) (val : Zval) (rb : Response) (es : Entries)
      (o : Option ℕ)
      → env.lcb.submit [] (plain_get id) ≡ lcb_success
      → env.lcb.wait (plain_get id ∷ []) ≡ rb ∷ []
      → rb.rc ≡ lcb_success
      → 0 < length rb.value
      → rb.cas < u64_mod
      → decode_value env.lcb rb.value rb.itmflags rb.datatype ≡ array es
      → First (env.is_identical val) (elements es) o
      → (set_exists env sent (string id) val ≡ (sent, answered (bool (is_found o))))
        × ((set_remove env sent (string id) val).0 ≡ sent ++ element_removal id rb.cas o)
  unfolding set_exists set_remove with_document with_ending position Document.init_decode
  sets-First sent id val rb es o accepted replied fine some_text small decoded f =
      let filled : (length rb.value == 0) ≡ false = ground arith in
      let found = find_identical-First val es 0 o f in
      let plain : shift 0 o ≡ o = shift-none o in
      rw (get_document-single id rb accepted replied fine, filled, decoded, found, plain)
        (refl, rw (cas_or_zero-encode rb.cas small) (remove_position_sends sent id rb.cas o))
