-- ===== src/Auth/Classic/Named.antt =====
-- classic_authenticator.c: the credential that a bucket opened without a password gets.
use php_couchbase.Base.{
  ℕ, ◌≡◌, refl, sym, ap, subst, ◌∙◌, inl, inr, Bool, true, false, not, ◌&&◌, ◌||◌, List, [], ◌∷◌,
  ◌++◌, Option, none, some, Bytes, arith, length, bytes_eq, bytes_eq_refl, ◌==◌, if◌then◌else◌,
  Bool-cases,
}
use php_couchbase.MutationToken.{estrdup}
use php_couchbase.MutationToken.RoundTrip.{estrdup-eq}
use php_couchbase.Pool.Connstr.{type_bucket}
use php_couchbase.Auth.{Generated, Pass, for_cluster, for_bucket, add_pass, strncmp_eq}
use php_couchbase.Auth.Classic.{
  Credential, ClassicAuthenticator, classic_construct, bucket_passes, write_null, cluster_passes,
  own_passes, generate_classic, generate_from, generate_named, stored_of, has_credentials,
  extra_pass, same_text, is_given, or_blank,
}
use php_couchbase.Auth.Classic.Buckets.{IsText, AreTexts, stored_password}

abbrev or_else : Option Bytes → Option Bytes → Option Bytes
or_else none b = b
or_else (some a) b = some a

abbrev pub copied : Option Bytes → Option Bytes
copied none = none
copied (some s) = some (estrdup s)

abbrev is_user : Bytes → Option Bytes → Bool
is_user name none = false
is_user name (some user) = bytes_eq user name

-- The password that a call for the bucket of a name sets.
abbrev pass_for : Bytes → Pass → Option Bytes
pass_for name p = elim p.target [
  | for_cluster ↦ none
  | for_bucket ↦ if is_user name p.user then p.password else none
]

-- That of the first such call.
abbrev pub find_pass : Bytes → List Pass → Option Bytes
find_pass name [] = none
find_pass name (p ∷ ps) = or_else (pass_for name p) (find_pass name ps)

abbrev pub is_prefix : Bytes → Bytes → Bool
is_prefix [] b = true
is_prefix (c ∷ a) [] = false
is_prefix (c ∷ a) (d ∷ b) = c == d && is_prefix a b

-- A stored name is a prefix of the name.
abbrev pub is_hidden : Bytes → List Credential → Bool
is_hidden name [] = false
is_hidden name (c ∷ cs) = is_prefix c.username name || is_hidden name cs

strncmp_eq-is_prefix : (a b : Bytes) → IsText a → strncmp_eq a b ≡ is_prefix a b
unfolding strncmp_eq
strncmp_eq-is_prefix [] b h = refl
strncmp_eq-is_prefix (c ∷ a) [] h = ground (arith, h.0)
strncmp_eq-is_prefix (c ∷ a) (d ∷ b) h = ground (arith, h.0, strncmp_eq-is_prefix a b h.1)

write_null-is_hidden :
    (name : Bytes) (cs : List Credential)
    → AreTexts cs
    → write_null (some name) cs ≡ not (is_hidden name cs)
unfolding write_null
write_null-is_hidden name [] h = refl
write_null-is_hidden name (c ∷ cs) h =
    rw (strncmp_eq-is_prefix c.username name h.0, write_null-is_hidden name cs h.1) (ground arith)

or_else_assoc : (a b c : Option Bytes) → or_else (or_else a b) c ≡ or_else a (or_else b c)
or_else_assoc none b c = refl
or_else_assoc (some a) b c = refl

find_pass-append :
    (name : Bytes) (xs ys : List Pass)
    → find_pass name (xs ++ ys) ≡ or_else (find_pass name xs) (find_pass name ys)
find_pass-append name [] ys = refl
find_pass-append name (x ∷ xs) ys =
    ap (or_else (pass_for name x)) (find_pass-append name xs ys)
    ∙ sym (or_else_assoc (pass_for name x) (find_pass name xs) (find_pass name ys))

find_pass-cluster_passes :
    (name : Bytes) (c : Option Credential) → find_pass name (cluster_passes c) ≡ none
unfolding cluster_passes add_pass
find_pass-cluster_passes name none = refl
find_pass-cluster_passes name (some c) = refl

find_pass-extra_pass :
    (name : Bytes) (b : Bool) (c : Credential) → find_pass name (extra_pass b c) ≡ none
unfolding extra_pass add_pass
find_pass-extra_pass name true c = refl
find_pass-extra_pass name false c = refl

find_pass-bucket_passes :
    (name : Bytes) (bare : Bool) (cs : List Credential)
    → AreTexts cs
    → find_pass name (bucket_passes bare (some name) cs) ≡ copied (stored_password name cs)
unfolding bucket_passes add_pass
find_pass-bucket_passes name bare [] h = refl
find_pass-bucket_passes name bare (c ∷ cs) h =
    find_pass-append name (extra_pass (bare && same_text c.username (some name)) c) _
    ∙ rw
        (
          find_pass-extra_pass name (bare && same_text c.username (some name)) c,
          estrdup-eq c.username h.0,
          find_pass-bucket_passes name bare cs h.1,
        )
        (elim (Bool-cases (bytes_eq c.username name)) [ inl e ↦ rw e refl | inr e ↦ rw e refl ])

find_pass-own_passes :
    (name : Bytes) (wanted : Bool)
    → IsText name
    → find_pass name (own_passes type_bucket wanted name []) ≡ (if wanted then some [] else none)
unfolding own_passes add_pass estrdup
find_pass-own_passes name true h = rw (estrdup-eq name h, bytes_eq_refl name) refl
find_pass-own_passes name false h = refl

-- What the name gets of the stored credentials, or of the empty password.
abbrev pub bare_password : Bytes → List Credential → Option Bytes
bare_password name cs =
    or_else (copied (stored_password name cs)) (if is_hidden name cs then none else some [])

find_pass-generate_from :
    (auth : ClassicAuthenticator) (name : Bytes)
    → IsText name
    → AreTexts auth.buckets
    → (g : Generated) × (generate_from auth type_bucket (some name) none ≡ some g)
      × (find_pass name g.passes ≡ bare_password name auth.buckets)
unfolding generate_from generate_named is_given or_blank
find_pass-generate_from auth name t h = (
  _,
  refl,
  find_pass-append name (cluster_passes auth.cluster ++ bucket_passes true (some name) auth.buckets)
        _
      ∙ rw
          (
            find_pass-append name (cluster_passes auth.cluster)
                (bucket_passes true (some name) auth.buckets),
            find_pass-cluster_passes name auth.cluster,
            find_pass-bucket_passes name true auth.buckets h,
            find_pass-own_passes name (write_null (some name) auth.buckets) t,
            write_null-is_hidden name auth.buckets h,
          )
          (elim (Bool-cases (is_hidden name auth.buckets)) [
            | inl e ↦ rw e refl
            | inr e ↦ rw e refl
          ]),
)

no_credentials :
    (cluster : Option Credential) (n : ℕ) (cs : List Credential)
    → n ≡ length cs
    → has_credentials cluster n ≡ false
    → [] ≡ cs
unfolding has_credentials
no_credentials cluster n [] e z = refl
no_credentials none n (c ∷ cs) e z = absurd (ground arith)
no_credentials (some d) n (c ∷ cs) e z = absurd (ground arith)

stored_of-buckets :
    (auth : ClassicAuthenticator)
    → auth.nbuckets ≡ length auth.buckets
    → (stored_of (some auth)).buckets ≡ auth.buckets
unfolding stored_of classic_construct
stored_of-buckets auth e = elim (Bool-cases (has_credentials auth.cluster auth.nbuckets)) [
  | inl h ↦ rw h refl
  | inr h ↦ rw h (no_credentials auth.cluster auth.nbuckets auth.buckets e h)
]

-- A bucket that is opened by name without a password gets from a classic authenticator, as its bucket
-- credential, the stored password of its name; where none is stored, the empty password, but no
-- credential at all if a stored name is a prefix of its name. The names are C strings, and nbuckets is
-- the length of the list.
pub find_pass-generate_classic :
    (auth : ClassicAuthenticator) (name : Bytes)
    → IsText name
    → AreTexts auth.buckets
    → auth.nbuckets ≡ length auth.buckets
    → (g : Generated) × (generate_classic (some auth) type_bucket (some name) none ≡ some g)
      × (find_pass name g.passes ≡ bare_password name auth.buckets)
unfolding generate_classic
find_pass-generate_classic auth name t h e =
    let same = stored_of-buckets auth e in
    let (g, made, found) =
      find_pass-generate_from (stored_of (some auth)) name t (subst AreTexts (sym same) h) in
    (g, made, found ∙ ap (bare_password name) same)
