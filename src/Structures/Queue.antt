-- ===== src/Structures/Queue.antt =====
-- bucket.c: the commands of queueRemove.
use php_couchbase.Base.{
  ℕ, ◌<◌, ◌≡◌, refl, [], ◌∷◌, ◌++◌, List, none, some, Bytes, codes, inl, inr, ap, ◌∙◌, ◌==◌,
  if◌then◌else◌, Bool-cases, append-nil, sym, true,
}
use php_couchbase.Base36.RoundTrip.{decode_str-encode_str}
use php_couchbase.Base36.{u64_mod}
use php_couchbase.Zval.{Zval, Entries, entry, num, str, array, end}
use php_couchbase.OpCookie.{lcb_success}
use php_couchbase.Document.{cas_encode, cas_decode}
use php_couchbase.Subdoc.{SubdocCmd, SubdocEnv, SdEntry, SdResponse, no_flags, sd_remove}
use php_couchbase.Subdoc.LookupIn
use php_couchbase.Subdoc.LookupIn.Paths.{get_spec, builder_with, get-with_specs, init-paths}
use php_couchbase.Subdoc.MutateIn.{init, push_spec}
use php_couchbase.Subdoc.MutateIn.Built.{spec_with, builder_remove-push_spec}
use php_couchbase.Subdoc.Request.{
  Fragment, subdoc_request, lookup_cmd, mutate_cmd, fragment_of, entry_values, entry_value,
  fragment_init, fragment_init_error,
}
use php_couchbase.Subdoc.Request.Single.{subdoc_request-single, stored_res}
use php_couchbase.Structures.{
  cas_or_zero, first_value, entry_field, execute_lookup, execute_mutation,
}
use php_couchbase.Structures.Element.{queue_remove, take_out, after_lookup}

-- The two commands.
abbrev pub last_lookup : Bytes → SubdocCmd
last_lookup id = record { key = id; cas = 0; specs = get_spec (codes "[-1]") ∷ [] }

abbrev pub last_removal : Bytes → ℕ → SubdocCmd
last_removal id cas = record {
  key = id;
  cas = cas;
  specs = spec_with sd_remove no_flags (codes "[-1]") none ∷ [];
}

-- The removal, by the code of the lookup's response and its CAS.
abbrev pub removal_for : SubdocEnv → Bytes → SdResponse → List SubdocCmd
removal_for env id rb =
    if rb.rc == lcb_success
    then last_removal id rb.cas ∷ []
    else if rb.rc == env.multi_failure
    then last_removal id 0 ∷ []
    else []

-- A document's CAS is read back from its property.
pub cas_or_zero-encode : (cas : ℕ) → cas < u64_mod → cas_or_zero (some (cas_encode cas)) ≡ cas
unfolding cas_or_zero cas_encode cas_decode
cas_or_zero-encode cas h = decode_str-encode_str cas h

module _ (env : SubdocEnv) where
  take_out_sends :
      (sent : List SubdocCmd) (id : Bytes) (f : Fragment) (v : Zval)
      → (take_out env sent id f (some v)).0 ≡ sent ++ last_removal id (cas_or_zero f.cas) ∷ []
  unfolding take_out execute_mutation mutate_cmd subdoc_request push_spec init
  take_out_sends sent id f v =
      rw (builder_remove-push_spec env (init id (cas_or_zero f.cas)) (codes "[-1]") no_flags) refl

  lookup_cmd-last :
      (id : Bytes)
      → lookup_cmd (LookupIn.get env (LookupIn.init env id []) (codes "[-1]") none)
        ≡ some (last_lookup id)
  unfolding lookup_cmd
  lookup_cmd-last id =
      rw (init-paths env id [], get-with_specs env (builder_with id 0 []) (codes "[-1]")) refl

  first_value-single :
      (cur : SdEntry)
      → ((z : Zval) → env.lcb.fetchn (entry (num 0) z end) 0 ≡ some z)
      → ((z : Zval) (es : Entries)
          → env.lcb.fetch (entry (str (codes "value")) z es) (codes "value") ≡ some z)
      → (v : Zval) × (first_value env (some (array (entry_values env true 0 (cur ∷ []) end)))
          ≡ some v)
  unfolding first_value entry_field entry_values entry_value
  first_value-single cur index name =
      (_, ap (entry_field env) (index (entry_value env cur)) ∙ name _ _)

  -- What the removal is made of.
  take_out-fragment :
      (sent : List SubdocCmd) (id : Bytes) (rb : SdResponse) (cur : SdEntry)
      → rb.entries ≡ cur ∷ []
      → rb.cas < u64_mod
      → ((z : Zval) → env.lcb.fetchn (entry (num 0) z end) 0 ≡ some z)
      → ((z : Zval) (es : Entries)
          → env.lcb.fetch (entry (str (codes "value")) z es) (codes "value") ≡ some z)
      → (take_out env sent id
          (fragment_of env rb.rc (stored_res env true rb))
          (first_value env (fragment_of env rb.rc (stored_res env true rb)).value)).0
        ≡ sent ++ removal_for env id rb
  unfolding fragment_of fragment_init fragment_init_error cas_or_zero
  take_out-fragment sent id rb cur one small index name =
      let (v, first) = first_value-single cur index name in
      elim (Bool-cases (rb.rc == lcb_success)) [
        | inl e ↦
            rw (e, one, first)
              (take_out_sends sent id _ v
                ∙ ap (λ x. sent ++ last_removal id x ∷ []) (cas_or_zero-encode rb.cas small))
        | inr e ↦ elim (Bool-cases (rb.rc == env.multi_failure)) [
          | inl m ↦ rw (e, m, one, first) (take_out_sends sent id _ v)
          | inr n ↦ rw (e, n) (unfold first_value take_out in sym (append-nil sent))
        ]
      ]

  -- The commands of queueRemove are a lookup of the last element and then its removal. The removal
  -- has the CAS of the lookup's response if that reports success; after a multi-path failure it has
  -- CAS 0, which means any, and after another error there is no removal. This is for a lookup that
  -- is accepted and answered by one response with one entry and a 64-bit CAS, and array functions
  -- that find the only element of an array, and the first under its own key.
  pub queue_remove-commands :
      (sent : List SubdocCmd) (id : Bytes) (rb : SdResponse) (cur : SdEntry)
      → env.submit sent (last_lookup id) ≡ lcb_success
      → env.responses sent (last_lookup id) ≡ rb ∷ []
      → rb.entries ≡ cur ∷ []
      → rb.cas < u64_mod
      → ((z : Zval) → env.lcb.fetchn (entry (num 0) z end) 0 ≡ some z)
      → ((z : Zval) (es : Entries)
          → env.lcb.fetch (entry (str (codes "value")) z es) (codes "value") ≡ some z)
      → (queue_remove env sent id).0 ≡ (sent ++ last_lookup id ∷ []) ++ removal_for env id rb
  unfolding queue_remove after_lookup execute_lookup
  queue_remove-commands sent id rb cur accepted answered one small index name =
      rw
        (
          lookup_cmd-last id,
          subdoc_request-single env true sent (last_lookup id) rb accepted answered,
        )
        (take_out-fragment (sent ++ last_lookup id ∷ []) id rb cur one small index name)
