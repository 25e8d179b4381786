-- ===== src/Bucket/Store/Given.antt =====
-- paramparser.c and store.c: an id, a value and an options array that has nothing but a CAS.
use php_couchbase.Base.{
  ℕ, ◌≡◌, refl, ◌∙◌, List, [], ◌∷◌, none, some, Bytes, codes, bytes_eq, if◌then◌else◌, Bool-cases,
  inl, inr,
}
use php_couchbase.Zval.{Zval, Entries, undef, string, array, end}
use php_couchbase.Document.{cas_encode}
use php_couchbase.Params.{StateArg, PpState, ok, begin}
use php_couchbase.Lcb.{Env}
use php_couchbase.Bucket.Store.{replace_spec, concat_spec}

-- An options array that has the CAS of a document and no other option.
unfoldable pub HasCas : Env → Entries → ℕ → Type 0
HasCas env es cas =
    (name : Bytes)
    → env.fetch es name ≡ (if bytes_eq (codes "cas") name then some (cas_encode cas) else none)

-- A named argument of which nothing is given.
abbrev absent : Bytes → StateArg
absent name = record { name = name; out = none; val = undef }

abbrev given : Bytes → Zval → StateArg
given name z = record { name = name; out = none; val = z }

abbrev pub cas_state : Bytes → List StateArg → ℕ → PpState
cas_state id args named = record {
  args = args;
  arg_req = 1;
  arg_opt = 1;
  arg_named = named;
  cur_idx = 0;
  zids = string id;
  hash_pos = end;
  id = [];
}

abbrev pub replace_args : Zval → ℕ → List StateArg
replace_args value cas =
    given (codes "value") value
    ∷ given (codes "cas") (cas_encode cas)
    ∷ absent (codes "expiry")
    ∷ absent (codes "flags")
    ∷ absent (codes "groupid")
    ∷ absent (codes "persist_to")
    ∷ absent (codes "replicate_to")
    ∷ []

-- A named argument, from an options array.
abbrev named : Env → Entries → Bytes → StateArg
named env es name = given name (elim (env.fetch es name) [ none ↦ undef | some z ↦ z ])

replace-begin_raw :
    (env : Env) (id : Bytes) (value : Zval) (es : Entries)
    → begin env.fetch (string id ∷ value ∷ array es ∷ []) (replace_spec env)
      ≡ ok (
          cas_state id
            (given (codes "value") value
              ∷ named env es (codes "cas")
              ∷ named env es (codes "expiry")
              ∷ named env es (codes "flags")
              ∷ named env es (codes "groupid")
              ∷ named env es (codes "persist_to")
              ∷ named env es (codes "replicate_to")
              ∷ [])
            6)
unfolding begin bytes_eq
replace-begin_raw env id value es = refl

named-given :
    (env : Env) (es : Entries) (cas : ℕ) (name : Bytes)
    → HasCas env es cas
    → named env es name
      ≡ (if bytes_eq (codes "cas") name then given name (cas_encode cas) else absent name)
unfolding HasCas
named-given env es cas name h = elim (Bool-cases (bytes_eq (codes "cas") name)) [
  | inl e ↦ rw (h name, e) refl
  | inr e ↦ rw (h name, e) refl
]

pub replace-begin :
    (env : Env) (id : Bytes) (value : Zval) (es : Entries) (cas : ℕ)
    → HasCas env es cas
    → begin env.fetch (string id ∷ value ∷ array es ∷ []) (replace_spec env)
      ≡ ok (cas_state id (replace_args value cas) 6)
unfolding bytes_eq
replace-begin env id value es cas h =
    let n : (name : Bytes) → _ = λ name. named-given env es cas name h in
    replace-begin_raw env id value es
    ∙ rw
        (
          n (codes "cas"),
          n (codes "expiry"),
          n (codes "flags"),
          n (codes "groupid"),
          n (codes "persist_to"),
          n (codes "replicate_to"),
        )
        refl

abbrev pub concat_args : Zval → ℕ → List StateArg
concat_args value cas =
    given (codes "value") value
    ∷ given (codes "cas") (cas_encode cas)
    ∷ absent (codes "groupid")
    ∷ absent (codes "persist_to")
    ∷ absent (codes "replicate_to")
    ∷ []

concat-begin_raw :
    (env : Env) (id : Bytes) (value : Zval) (es : Entries)
    → begin env.fetch (string id ∷ value ∷ array es ∷ []) (concat_spec env)
      ≡ ok (
          cas_state id
            (given (codes "value") value
              ∷ named env es (codes "cas")
              ∷ named env es (codes "groupid")
              ∷ named env es (codes "persist_to")
              ∷ named env es (codes "replicate_to")
              ∷ [])
            4)
unfolding begin bytes_eq
concat-begin_raw env id value es = refl

pub concat-begin :
    (env : Env) (id : Bytes) (value : Zval) (es : Entries) (cas : ℕ)
    → HasCas env es cas
    → begin env.fetch (string id ∷ value ∷ array es ∷ []) (concat_spec env)
      ≡ ok (cas_state id (concat_args value cas) 4)
unfolding bytes_eq
concat-begin env id value es cas h =
    let n : (name : Bytes) → _ = λ name. named-given env es cas name h in
    concat-begin_raw env id value es
    ∙ rw (n (codes "cas"), n (codes "groupid"), n (codes "persist_to"), n (codes "replicate_to"))
        refl
