-- ===== src/Managers/Users/Roles.antt =====
-- user_settings.c: the roles can be read back from their text.
use php_couchbase.Base.{
  ℕ, ◌≡◌, ◌≢◌, refl, sym, ap, ◌∙◌, inl, inr, List, [], ◌∷◌, ◌++◌, append_assoc, append-nil, Bytes,
  All, arith, map, ◌==◌, if◌then◌else◌, Bool-cases,
}
use php_couchbase.Managers.Users.{UserSettings, user_construct, with_comma, in_brackets, role}

-- A call of `role`, with a role and a bucket.
abbrev pub role_calls : UserSettings → List (Bytes × Bytes) → UserSettings
role_calls user [] = user
role_calls user ((name, bucket) ∷ calls) = role_calls (role name bucket user) calls

abbrev pub role_text : Bytes × Bytes → Bytes
role_text (name, []) = name
role_text (name, c ∷ bucket) = name ++ (b'[' ∷ (c ∷ bucket) ++ b']' ∷ [])

-- The fields between commas; `field` is the one that is being read.
abbrev pub split_from : Bytes → Bytes → List Bytes
split_from field [] = field ∷ []
split_from field (c ∷ s) =
    if c == b',' then field ∷ split_from [] s else split_from (field ++ c ∷ []) s

abbrev pub split : Bytes → List Bytes
split [] = []
split (c ∷ s) = split_from [] (c ∷ s)

abbrev pub IsPlain : Bytes → Type 0
IsPlain s = All (λ c. c ≢ b',') s

-- A role with a name, and no comma in it or in its bucket.
pub record IsRole (call : Bytes × Bytes) : Type 0 where
  pub named : call.0 ≢ []
  pub plain_name : IsPlain call.0
  pub plain_bucket : IsPlain call.1

split_from-comma :
    (field s rest : Bytes)
    → split_from field (s ++ b',' ∷ rest) ≡ split_from field s ++ split_from [] rest
split_from-comma field [] rest = refl
split_from-comma field (c ∷ s) rest = elim (Bool-cases (c == b',')) [
  | inl e ↦ rw e (ap (λ (l : List Bytes). field ∷ l) (split_from-comma [] s rest))
  | inr e ↦ rw e (split_from-comma (field ++ c ∷ []) s rest)
]

split_from-plain : (field s : Bytes) → IsPlain s → split_from field s ≡ (field ++ s) ∷ []
split_from-plain field [] p = rw (append-nil field) refl
split_from-plain field (c ∷ s) p = elim (Bool-cases (c == b',')) [
  | inl e ↦ absurd (p.0 (ground arith))
  | inr e ↦ rw (e, split_from-plain (field ++ c ∷ []) s p.1, append_assoc field (c ∷ []) s) refl
]

-- A text behind those that are there.
split-with_comma :
    (roles : Bytes) (c : ℕ) (s : Bytes)
    → IsPlain (c ∷ s)
    → split (with_comma roles ++ c ∷ s) ≡ split roles ++ (c ∷ s) ∷ []
unfolding with_comma
split-with_comma [] c s p = split_from-plain [] (c ∷ s) p
split-with_comma (d ∷ roles) c s p =
    ap split (append_assoc (d ∷ roles) (b',' ∷ []) (c ∷ s))
    ∙ split_from-comma [] (d ∷ roles) (c ∷ s)
    ∙ ap (λ (l : List Bytes). split (d ∷ roles) ++ l) (split_from-plain [] (c ∷ s) p)

IsPlain-append : (l m : Bytes) → IsPlain l → IsPlain m → IsPlain (l ++ m)
IsPlain-append [] m p q = q
IsPlain-append (x ∷ l) m p q = (p.0, IsPlain-append l m p.1 q)

in_brackets-IsPlain : (bucket : Bytes) → IsPlain bucket → IsPlain (in_brackets bucket)
unfolding in_brackets
in_brackets-IsPlain [] p = tt
in_brackets-IsPlain (c ∷ s) p = (
  λ e. absurd (omega arith),
  IsPlain-append (c ∷ s) (b']' ∷ []) p (λ e. absurd (omega arith), tt),
)

role_text-eq : (name bucket : Bytes) → name ++ in_brackets bucket ≡ role_text (name, bucket)
unfolding in_brackets
role_text-eq name [] = append-nil name
role_text-eq name (c ∷ s) = refl

split-role :
    (user : UserSettings) (name bucket : Bytes)
    → IsRole (name, bucket)
    → split (role name bucket user).roles ≡ split user.roles ++ role_text (name, bucket) ∷ []
unfolding role
split-role user [] bucket r = absurd (r.named refl)
split-role user (c ∷ s) bucket r =
    split-with_comma user.roles c (s ++ in_brackets bucket) (
      IsPlain-append (c ∷ s) (in_brackets bucket) r.plain_name
        (in_brackets-IsPlain bucket r.plain_bucket))
    ∙ ap (λ (t : Bytes). split user.roles ++ t ∷ []) (role_text-eq (c ∷ s) bucket)

split-role_from :
    (user : UserSettings) (calls : List (Bytes × Bytes))
    → All IsRole calls
    → split (role_calls user calls).roles ≡ split user.roles ++ map role_text calls
split-role_from user [] h = sym (append-nil (split user.roles))
split-role_from user ((name, bucket) ∷ calls) h =
    split-role_from (role name bucket user) calls h.1
    ∙ ap (λ (l : List Bytes). l ++ map role_text calls) (split-role user name bucket h.0)
    ∙ append_assoc (split user.roles) (role_text (name, bucket) ∷ []) (map role_text calls)

-- The text of the roles, split at its commas, is the list of the roles that UserSettings::role was
-- given, in order, each with its bucket in brackets if it has one. The roles have names, and neither
-- they nor the buckets have a comma.
pub split-role_calls :
    (calls : List (Bytes × Bytes))
    → All IsRole calls
    → split (role_calls user_construct calls).roles ≡ map role_text calls
unfolding user_construct
split-role_calls calls h = split-role_from user_construct calls h
