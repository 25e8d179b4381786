-- ===== src/Auth/Classic/Buckets.antt =====
-- classic_authenticator.c: the stored buckets as a map from names to passwords.
use php_couchbase.Base.{
  ◌+◌, ◌%◌, ◌^◌, ◌≡◌, ◌≢◌, refl, ap, ◌∙◌, inl, inr, List, [], ◌∷◌, Option, none, some, Bytes, All,
  arith, length, bytes_eq, bytes_eq_sound, bytes_eq_apart, if◌then◌else◌, Bool-cases,
}
use php_couchbase.Auth.{strncmp_eq}
use php_couchbase.Auth.Classic.{
  Credential, ClassicAuthenticator, classic_construct, same_name, is_stored, put_credential,
  set_bucket,
}

-- A C string.
abbrev pub IsText : Bytes → Type 0
IsText s = All (λ c. c ≢ 0) s

abbrev pub AreTexts : List Credential → Type 0
AreTexts cs = All (λ c. IsText c.username) cs

abbrev pub stored_password : Bytes → List Credential → Option Bytes
stored_password name [] = none
stored_password name (c ∷ cs) =
    if bytes_eq c.username name then some c.password else stored_password name cs

-- A chain of calls of `bucket` with names and passwords.
abbrev pub bucket_calls : ClassicAuthenticator → List (Bytes × Bytes) → ClassicAuthenticator
bucket_calls auth [] = auth
bucket_calls auth ((name, password) ∷ calls) = bucket_calls (set_bucket name password auth) calls

abbrev pub last_password : Bytes → List (Bytes × Bytes) → Option Bytes → Option Bytes
last_password q [] old = old
last_password q ((name, password) ∷ calls) old =
    last_password q calls (if bytes_eq name q then some password else old)

pub same_name-eq : (a b : Bytes) → IsText a → same_name a b ≡ bytes_eq a b
unfolding same_name strncmp_eq bytes_eq
same_name-eq [] [] h = refl
same_name-eq [] (d ∷ b) h = ground arith
same_name-eq (c ∷ a) [] h = ground arith
same_name-eq (c ∷ a) (d ∷ b) h = ground (arith, same_name-eq a b h.1)

put_credential-AreTexts :
    (name password : Bytes) (cs : List Credential)
    → IsText name
    → AreTexts cs
    → AreTexts (put_credential name password cs)
unfolding put_credential
put_credential-AreTexts name password [] t h = (t, tt)
put_credential-AreTexts name password (c ∷ cs) t h = elim (Bool-cases (same_name c.username name)) [
  | inl e ↦ rw e h
  | inr e ↦ rw e (h.0, put_credential-AreTexts name password cs t h.1)
]

stored_password-put_credential :
    (q name password : Bytes) (cs : List Credential)
    → AreTexts cs
    → stored_password q (put_credential name password cs)
      ≡ (if bytes_eq name q then some password else stored_password q cs)
unfolding put_credential
stored_password-put_credential q name password [] h = refl
stored_password-put_credential q name password (c ∷ cs) h =
    elim (Bool-cases (bytes_eq c.username name)) [
      | inl e ↦
          let same : c.username ≡ name = bytes_eq_sound c.username name e in
          rw (same_name-eq c.username name h.0, e, same) (ground arith)
      | inr e ↦ elim (Bool-cases (bytes_eq c.username q)) [
        | inl f ↦
            rw (same_name-eq c.username name h.0, e, f, bytes_eq_apart c.username name q e f) refl
        | inr f ↦
            rw (same_name-eq c.username name h.0, e, f)
              (stored_password-put_credential q name password cs h.1)
      ]
    ]

length-put_credential :
    (name password : Bytes) (cs : List Credential)
    → length (put_credential name password cs)
      ≡ (if is_stored name cs then length cs else length cs + 1)
unfolding put_credential is_stored
length-put_credential name password [] = refl
length-put_credential name password (c ∷ cs) =
    ground (arith, length-put_credential name password cs)

-- What the calls keep: the stored names are C strings, and the count is that of the list.
record IsCounted (auth : ClassicAuthenticator) : Type 0 where
  texts : AreTexts auth.buckets
  counted : auth.nbuckets ≡ length auth.buckets % 2 ^ 32

set_bucket-IsCounted :
    (name password : Bytes) (auth : ClassicAuthenticator)
    → IsText name
    → IsCounted auth
    → IsCounted (set_bucket name password auth)
unfolding set_bucket
set_bucket-IsCounted name password auth t v = record {
  texts = put_credential-AreTexts name password auth.buckets t v.texts;
  counted = ground (arith, v.counted, length-put_credential name password auth.buckets);
}

calls_from :
    (q : Bytes) (auth : ClassicAuthenticator) (calls : List (Bytes × Bytes))
    → All (λ c. IsText c.0) calls
    → IsCounted auth
    → stored_password q (bucket_calls auth calls).buckets
        ≡ last_password q calls (stored_password q auth.buckets)
      × (bucket_calls auth calls).nbuckets ≡ length (bucket_calls auth calls).buckets % 2 ^ 32
calls_from q auth [] h v = (refl, v.counted)
calls_from q auth ((name, password) ∷ calls) h v =
    let (found, counted) =
      calls_from q (set_bucket name password auth) calls h.1
        (set_bucket-IsCounted name password auth h.0 v) in
    (
      found
          ∙ ap (last_password q calls) (
              unfold set_bucket in
              stored_password-put_credential q name password auth.buckets v.texts),
      counted,
    )

-- After calls of ClassicAuthenticator::bucket with names that are C strings, the authenticator holds for
-- each name the password of the last call with that name, and nbuckets is the length of its list, as
-- a 32-bit int.
pub stored_password-bucket_calls :
    (q : Bytes) (calls : List (Bytes × Bytes))
    → All (λ c. IsText c.0) calls
    → stored_password q (bucket_calls classic_construct calls).buckets ≡ last_password q calls none
      × (bucket_calls classic_construct calls).nbuckets
        ≡ length (bucket_calls classic_construct calls).buckets % 2 ^ 32
unfolding classic_construct
stored_password-bucket_calls q calls h =
    calls_from q classic_construct calls h (record { texts = tt; counted = refl })
