-- ===== src/Timeouts/Names.antt =====
-- bucket.c: which timeout a name stands for.
use php_couchbase.Base.{
  ℕ, ◌%◌, ◌^◌, ◌≡◌, refl, ap, sym, ◌∙◌, inl, inr, Bool, true, false, List, [], ◌∷◌, Option, none,
  some, arith, Bytes, codes, ◌==◌, if◌then◌else◌, Bool-cases, All,
}
use php_couchbase.Zval.{Zval, null, long}
use php_couchbase.Timeouts.{
  Control, op_timeout, n1ql_timeout, names, find_control, last_controls, set_controls, get_controls,
  set_property, get_property,
}

abbrev pub is_n1ql : Control → Bool
is_n1ql n1ql_timeout = true
is_n1ql _ = false

-- A control for a name that __get does not know.
abbrev readable : Option Control → Option Control
readable none = none
readable (some cmd) = if is_n1ql cmd then none else some cmd

-- A name that n1qlTimeout begins with has the letter n, unless it is empty.
find_control-n :
    (name : Bytes)
    → names name (codes "operationTimeout") ≡ false
    → names name (codes "n1qlTimeout") ≡ true
    → find_control name last_controls ≡ none
unfolding names find_control
find_control-n [] h e = cc
find_control-n (c ∷ name) h e = elim (Bool-cases (c == b'n')) [
  | inl n ↦ let letter : c ≡ b'n' = ground arith in rw letter refl
  | inr n ↦ absurd (cc (rw n at e))
]

-- Names of other controls can be read.
find_control-readable :
    (name : Bytes) (l : List (Bytes × Control))
    → All (λ p. is_n1ql p.1 ≡ false) l
    → readable (find_control name l) ≡ find_control name l
unfolding find_control
find_control-readable name [] a = refl
find_control-readable name ((text, cmd) ∷ rest) a = elim (Bool-cases (names name text)) [
  | inl e ↦ rw (e, a.0) refl
  | inr e ↦ rw e (find_control-readable name rest a.1)
]

-- One test of the chain, by its outcome.
find_control-hit :
    (name text : Bytes) (cmd : Control) (rest : List (Bytes × Control))
    → names name text ≡ true
    → find_control name ((text, cmd) ∷ rest) ≡ some cmd
unfolding find_control
find_control-hit name text cmd rest e = rw e refl

find_control-miss :
    (name text : Bytes) (cmd : Control) (rest : List (Bytes × Control))
    → names name text ≡ false
    → find_control name ((text, cmd) ∷ rest) ≡ find_control name rest
unfolding find_control
find_control-miss name text cmd rest e = rw e refl

-- The controls of __get are those of __set without n1qlTimeout.
find_control-get :
    (name : Bytes) → find_control name get_controls ≡ readable (find_control name set_controls)
find_control-get name = elim (Bool-cases (names name (codes "operationTimeout"))) [
  | inl o ↦ find_control-hit name _ _ _ o ∙ ap readable (sym (find_control-hit name _ _ _ o))
  | inr o ↦
      find_control-miss name _ _ _ o
      ∙ elim (Bool-cases (names name (codes "viewTimeout"))) [
        | inl v ↦ find_control-hit name _ _ _ v ∙ ap readable (sym (find_control-hit name _ _ _ v))
        | inr v ↦
            find_control-miss name _ _ _ v
            ∙ elim (Bool-cases (names name (codes "n1qlTimeout"))) [
              | inl n ↦ find_control-n name o n ∙ ap readable (sym (find_control-hit name _ _ _ n))
              | inr n ↦
                  sym (
                    find_control-readable name last_controls
                      (refl, (refl, (refl, (refl, (refl, (refl, (refl, (refl, tt)))))))))
                  ∙ ap readable (sym (find_control-miss name _ _ _ n))
            ]
            ∙ ap readable (sym (find_control-miss name _ _ _ v))
      ]
      ∙ ap readable (sym (find_control-miss name _ _ _ o))
]

-- What a name reads back, by the control that __set finds for it.
abbrev pub read_back : Control → ℕ → Zval
read_back cmd val = if is_n1ql cmd then null else long (val % 2 ^ 32)

module _ {S : Type 0} (cntl_set : S → Control → ℕ → S) (cntl_get : S → Control → ℕ) where
  -- After __set has found a control for a name, __get gives the low 32 bits of the value for the same
  -- name, and null if the control is that of n1qlTimeout, which __get does not test. This is for a
  -- libcouchbase whose settings read back what was set.
  pub get_property-set_property :
      ((s : S) (cmd : Control) (v : ℕ) → cntl_get (cntl_set s cmd v) cmd ≡ v)
      → (s : S) (name : Bytes) (val : ℕ) (cmd : Control) → find_control name set_controls ≡ some cmd
      → get_property cntl_set cntl_get (set_property cntl_set cntl_get s name val).0 name
        ≡ read_back cmd val
  unfolding get_property set_property
  get_property-set_property law s name val cmd found =
      rw (find_control-get name, found)
        (elim (Bool-cases (is_n1ql cmd)) [
          | inl e ↦ rw e refl
          | inr e ↦ rw e (ap long (law s cmd (val % 2 ^ 32)))
        ])

  -- An empty name sets and reads the timeout of operations.
  pub empty_name :
      (s : S) (val : ℕ)
      → (set_property cntl_set cntl_get s [] val ≡ (cntl_set s op_timeout (val % 2 ^ 32), long val))
        × (get_property cntl_set cntl_get s [] ≡ long (cntl_get s op_timeout))
  unfolding set_property get_property
  empty_name s val = (refl, refl)
