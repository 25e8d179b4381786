-- ===== src/Subdoc/MutateIn/Multivalue.antt =====
-- mutate_in_builder.c: the text that the multivalue operations cut out of an encoded array.
use php_couchbase.Base.{
  ℕ, ◌≡◌, ◌≢◌, refl, ap, ◌∙◌, inl, inr, true, false, [], ◌∷◌, ◌++◌, some, arith, Bytes, ◌==◌,
  Bool-cases, Option-cases, All, append_assoc, subst,
}
use php_couchbase.Subdoc.MutateIn.{
  is_space, trim_left, trim_right, drop_space, before_bracket, body_of, inside, multi_value,
}

-- The body between brackets, with spaces before and behind.
abbrev pub bracketed : Bytes → Bytes → Bytes → Bytes
bracketed before body behind = before ++ (b'[' ∷ (body ++ (b']' ∷ behind)))

abbrev pub Spaces : Bytes → Type 0
Spaces = All (λ c. is_space c ≡ true)

trim_left-Spaces :
    (before s : Bytes) (c : ℕ)
    → Spaces before
    → is_space c ≡ false
    → trim_left (before ++ c ∷ s) ≡ c ∷ s
unfolding trim_left
trim_left-Spaces [] s c h n = rw n refl
trim_left-Spaces (b ∷ before) s c h n = rw h.0 (trim_left-Spaces before s c h.1 n)

trim_right-Spaces : (behind : Bytes) → Spaces behind → trim_right behind ≡ []
unfolding trim_right
trim_right-Spaces [] h = refl
trim_right-Spaces (b ∷ behind) h =
    rw (trim_right-Spaces behind h.1) (unfold drop_space in rw h.0 refl)

trim_right-append :
    (s behind : Bytes) (c : ℕ)
    → Spaces behind
    → is_space c ≡ false
    → trim_right (s ++ c ∷ behind) ≡ s ++ c ∷ []
unfolding trim_right drop_space
trim_right-append [] behind c h n = rw (trim_right-Spaces behind h) (rw n refl)
trim_right-append (a ∷ []) behind c h n = rw (trim_right-append [] behind c h n) refl
trim_right-append (a ∷ d ∷ s) behind c h n = rw (trim_right-append (d ∷ s) behind c h n) refl

before_bracket-append : (s : Bytes) → before_bracket (s ++ b']' ∷ []) ≡ some s
unfolding before_bracket
before_bracket-append [] = refl
before_bracket-append (c ∷ []) = refl
before_bracket-append (c ∷ d ∷ s) = rw (before_bracket-append (d ∷ s), before_bracket) refl

-- The multivalue operations cut the text between the brackets out of an encoded array, whatever
-- spaces stand around it, if that text is not empty.
pub multi_value-bracketed :
    (before body behind : Bytes) (c : ℕ)
    → Spaces before
    → Spaces behind
    → multi_value (bracketed before (c ∷ body) behind) ≡ some (c ∷ body)
unfolding multi_value inside
multi_value-bracketed before body behind c h k =
    rw
      (
        trim_left-Spaces before (c ∷ (body ++ (b']' ∷ behind))) b'[' h refl,
        trim_right-append (b'[' ∷ c ∷ body) behind b']' k refl,
      )
      (rw (before_bracket-append (c ∷ body)) (unfold body_of in refl))

-- A text that ends in no bracket has none before it.
before_bracket_sound : (s r : Bytes) → before_bracket s ≡ some r → s ≡ r ++ b']' ∷ []
unfolding before_bracket
before_bracket_sound [] r e = cc
before_bracket_sound (c ∷ []) r e = ground arith
before_bracket_sound (c ∷ d ∷ s) r e = elim (Option-cases (before_bracket (d ∷ s))) [
  | inl n ↦ absurd (cc (rw (n, before_bracket) at e))
  | inr (q, k) ↦
      let cut : some (c ∷ q) ≡ some r = rw (k, before_bracket) at e in
      let p : c ∷ q ≡ r = cc in
      subst (λ x. c ∷ d ∷ s ≡ x ++ b']' ∷ []) p (ap (◌∷◌ c) (before_bracket_sound (d ∷ s) q k))
]

-- What the loops over spaces cut off.
trim_left_split : (s : Bytes) → (ws : Bytes) × Spaces ws × (s ≡ ws ++ trim_left s)
unfolding trim_left
trim_left_split [] = ([], tt, refl)
trim_left_split (c ∷ s) = elim (Bool-cases (is_space c)) [
  | inl h ↦ let r = trim_left_split s in (c ∷ r.0, (h, r.1), rw h (ap (◌∷◌ c) r.2))
  | inr h ↦ ([], tt, rw h refl)
]

drop_space_split :
    (c : ℕ) (t ws : Bytes)
    → Spaces ws
    → (vs : Bytes) × Spaces vs × (c ∷ t ++ ws ≡ drop_space c t ++ vs)
unfolding drop_space
drop_space_split c [] ws h = elim (Bool-cases (is_space c)) [
  | inl e ↦ (c ∷ ws, (e, h), rw e refl)
  | inr e ↦ (ws, h, rw e refl)
]
drop_space_split c (d ∷ t) ws h = (ws, h, refl)

trim_right_split : (s : Bytes) → (ws : Bytes) × Spaces ws × (s ≡ trim_right s ++ ws)
unfolding trim_right
trim_right_split [] = ([], tt, refl)
trim_right_split (c ∷ s) =
    let r = trim_right_split s in
    let d = drop_space_split c (trim_right s) r.0 r.1 in (d.0, d.1, ap (◌∷◌ c) r.2 ∙ d.2)

body_of_sound : (q body : Bytes) → body_of (some q) ≡ some body → (q ≡ body) × (body ≢ [])
unfolding body_of
body_of_sound [] body e = cc
body_of_sound (c ∷ q) body e = let p : c ∷ q ≡ body = cc in (p, λ n. cc)

inside_sound :
    (s body : Bytes) → inside s ≡ some body → (s ≡ b'[' ∷ (body ++ b']' ∷ [])) × (body ≢ [])
unfolding inside
inside_sound [] body e = cc
inside_sound (c ∷ s) body e = elim (Bool-cases (c == b'[')) [
  | inr n ↦ absurd (cc (rw n at e))
  | inl h ↦
      let inner : body_of (before_bracket s) ≡ some body = rw h at e in
      let bracket : c ≡ b'[' = ground arith in
      elim (Option-cases (before_bracket s)) [
        | inl n ↦ absurd (unfold body_of in cc (rw n at inner))
        | inr (q, k) ↦
            let cut = body_of_sound q body (rw k at inner) in
            (
              subst (λ x. c ∷ s ≡ x ∷ (body ++ b']' ∷ [])) bracket
                  (ap (◌∷◌ c) (subst (λ x. s ≡ x ++ b']' ∷ []) cut.0 (before_bracket_sound s q k))),
              cut.1,
            )
      ]
]

-- What a text must be for the multivalue operations to cut `body` out of it.
abbrev pub IsBracketed : Bytes → Bytes → Type 0
IsBracketed s body =
    (body ≢ [])
    × ((before : Bytes) × (behind : Bytes) × Spaces before
        × Spaces behind
        × (s ≡ bracketed before body behind))

multi_value_sound : (s body : Bytes) → multi_value s ≡ some body → IsBracketed s body
unfolding multi_value
multi_value_sound s body e =
    let l = trim_left_split s in
    let r = trim_right_split (trim_left s) in
    let i = inside_sound (trim_right (trim_left s)) body e in
    let middle : trim_left s ≡ b'[' ∷ ((body ++ b']' ∷ []) ++ r.0) = r.2 ∙ ap (λ x. x ++ r.0) i.0 in
    (
      i.1,
      (
        l.0,
        r.0,
        l.1,
        r.1,
        l.2 ∙ ap (λ x. l.0 ++ x) (middle ∙ ap (◌∷◌ b'[') (append_assoc body (b']' ∷ []) r.0)),
      ),
    )

bracketed_cut : (s body : Bytes) → IsBracketed s body → multi_value s ≡ some body
bracketed_cut s [] h = absurd (h.0 refl)
bracketed_cut s (c ∷ body) (n, (before, behind, h, k, e)) =
    rw e (multi_value-bracketed before body behind c h k)

-- The text that the multivalue operations take from an encoded value is `body` exactly if the
-- encoded value is `body`, which is not empty, between brackets, with any number of spaces
-- before and behind the brackets.
pub multi_value-IsBracketed :
    (s body : Bytes)
    → (multi_value s ≡ some body → IsBracketed s body)
      × (IsBracketed s body → multi_value s ≡ some body)
multi_value-IsBracketed s body = (multi_value_sound s body, bracketed_cut s body)
