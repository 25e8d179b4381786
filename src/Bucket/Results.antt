-- ===== src/Bucket/Results.antt =====
-- The callbacks of src/couchbase/bucket/*.c, which push a result for each response, and the
-- `proc_*_results` functions, which make the return value of the results. The five `proc`
-- functions have one text but for the document that they make; `proc_results` is that text.
pub mod Collect
pub mod Mapped
pub mod Unmapped
pub mod Keys
use php_couchbase.Base.{
  ℕ, zero, suc, Bool, true, false, List, [], ◌∷◌, Option, none, some, Bytes, bytes_eq, length, ◌==◌,
  if◌then◌else◌,
}
use php_couchbase.MutationToken.{Mt}
use php_couchbase.OpCookie.{OpCookie, push, results, get_first_error, lcb_success}
use php_couchbase.OpCookie
use php_couchbase.Lcb.{Env, Response}
use php_couchbase.Document
use php_couchbase.Document.{Document}

-- `return_value`: a document, or an array of documents under their keys.
pub data Return : Type 0 where
  null : Return
  document : Document → Return
  documents : List (Bytes × Document) → Return

-- zend_hash_str_update
update_key : Bytes → Document → List (Bytes × Document) → List (Bytes × Document)
update_key key doc [] = (key, doc) ∷ []
update_key key doc ((k, d) ∷ rest) =
    if bytes_eq k key then (key, doc) ∷ rest else (k, d) ∷ update_key key doc rest

put_mapped : Bytes → Document → Return → Return
unfolding update_key
put_mapped key doc (documents l) = documents (update_key key doc l)
put_mapped key doc _ = documents ((key, doc) ∷ [])

-- bop_get_return_doc, with the document that is then written into the place that it returns.
put_doc : Bool → Bytes → Document → Return → Return
unfolding put_mapped
put_doc true key doc ret = put_mapped key doc ret
put_doc false key doc ret = document doc

-- opcookie_store_res and its like: the key that a result carries, and what it says. The length
-- of the key is a field of its own.
pub record KeyRes {ℓ} (A : Type ℓ) : Type ℓ where
  pub key : Bytes
  pub key_len : ℕ
  pub fields : A

-- The key as the hash functions read it: `key_len` bytes at `key`.
abbrev pub hash_key : ℕ → Bytes → Bytes
hash_key zero key = []
hash_key (suc n) [] = []
hash_key (suc n) (c ∷ key) = c ∷ hash_key n key

-- The fields of opcookie_store_res, opcookie_get_res and opcookie_arithmetic_res.
pub record StoreRes : Type 0 where
  pub cas : ℕ
  pub token : Mt

pub record GetRes : Type 0 where
  pub bytes : Bytes
  pub flags : ℕ
  pub datatype : ℕ
  pub cas : ℕ

pub record ArithmeticRes : Type 0 where
  pub value : ℕ
  pub cas : ℕ
  pub token : Mt

-- The token of a result, which `ecalloc` has cleared.
abbrev pub token_or_zero : Option Mt → Mt
token_or_zero none = record { id = 0; seq = 0; vb = 0 }
token_or_zero (some mt) = mt

abbrev keyed {ℓ} : {A : Type ℓ} → Bytes → A → KeyRes A
keyed key fields = record { key = key; key_len = length key; fields = fields }

abbrev pub Callback {ℓ} : Type ℓ → Type ℓ
Callback A = OpCookie (KeyRes A) → Response → OpCookie (KeyRes A)

-- store_callback and remove_callback
unfoldable pub store_callback : Callback StoreRes
store_callback cookie rb =
    push cookie rb.rc
      (keyed rb.key (record { cas = rb.cas; token = token_or_zero rb.mutation_token }))

unfoldable pub remove_callback : Callback StoreRes
remove_callback cookie rb =
    push cookie rb.rc
      (keyed rb.key (record { cas = rb.cas; token = token_or_zero rb.mutation_token }))

-- touch_callback: it stores the key and leaves `key_len` and the token cleared.
unfoldable pub touch_callback : Callback StoreRes
touch_callback cookie rb = push cookie rb.rc (record {
  key = rb.key;
  key_len = 0;
  fields = record { cas = rb.cas; token = token_or_zero none };
})

-- get_callback
unfoldable pub get_callback : Callback GetRes
get_callback cookie rb = push cookie rb.rc (
    keyed rb.key
      (record { bytes = rb.value; flags = rb.itmflags; datatype = rb.datatype; cas = rb.cas }))

-- counter_callback
unfoldable pub counter_callback : Callback ArithmeticRes
counter_callback cookie rb = push cookie rb.rc (
    keyed rb.key
      (record { value = rb.counter_value; cas = rb.cas; token = token_or_zero rb.mutation_token }))

-- unlock_callback
unfoldable pub unlock_callback : Callback (Unit {0})
unlock_callback cookie rb = push cookie rb.rc (keyed rb.key tt)

-- The responses that arrive during lcb_wait, in their order.
unfoldable pub deliver {ℓ} :
    {A : Type ℓ} → Callback A → OpCookie (KeyRes A) → List Response → OpCookie (KeyRes A)
deliver callback cookie [] = cookie
deliver callback cookie (rb ∷ rest) = deliver callback (callback cookie rb) rest

module _ {ℓ} {A : Type ℓ} (doc_of : A → Document) where
  -- The document of one result.
  unfoldable pub res_document : ℕ → A → Document
  res_document err fields = if err == lcb_success then doc_of fields else Document.init_error err

  -- The FOREACH_OPCOOKIE_RES loop that fills `return_value`.
  fill : Bool → List (ℕ × KeyRes A) → Return → Return
  unfolding put_doc res_document
  fill is_mapped [] ret = ret
  fill is_mapped ((err, res) ∷ rest) ret =
      fill is_mapped rest
        (put_doc is_mapped (hash_key res.key_len res.key) (res_document err res.fields) ret)

  -- The error code and the return value.
  unfoldable pub proc_results : OpCookie (KeyRes A) → Bool → ℕ × Return
  unfolding fill
  proc_results cookie is_mapped =
      let err = if is_mapped then lcb_success else get_first_error cookie in
      if err == lcb_success then (err, fill is_mapped (results cookie) null) else (err, null)

module _ (env : Env) where
  -- proc_store_results, which is also proc_remove_results and proc_touch_results.
  unfoldable pub proc_store_results : OpCookie (KeyRes StoreRes) → Bool → ℕ × Return
  unfolding proc_results
  proc_store_results = proc_results (λ r. Document.init env [] 0 r.cas (some r.token))

  unfoldable pub proc_get_results : OpCookie (KeyRes GetRes) → Bool → ℕ × Return
  unfolding proc_results
  proc_get_results =
      proc_results (λ r. Document.init_decode env r.bytes r.flags r.datatype r.cas none)

  unfoldable pub proc_arithmetic_results : OpCookie (KeyRes ArithmeticRes) → Bool → ℕ × Return
  unfolding proc_results
  proc_arithmetic_results =
      proc_results (λ r. Document.init_counter env r.value r.cas (some r.token))

  -- proc_unlock_results and proc_durability_results
  unfoldable pub proc_unlock_results : OpCookie (KeyRes (Unit {0})) → Bool → ℕ × Return
  unfolding proc_results
  proc_unlock_results = proc_results (λ r. Document.init env [] 0 0 none)
