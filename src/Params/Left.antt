-- ===== src/Params/Left.antt =====
-- paramparser.c: what one call of pcbc_pp_next leaves to read.
use php_couchbase.Base.{
  ℕ, ◌+◌, ◌<◌, ◌≡◌, refl, ap, subst, inl, inr, List, [], ◌∷◌, Option, some, arith, Bytes, ltb,
  if◌then◌else◌, Bool-cases, get_or,
}
use php_couchbase.Zval.{
  Zval, Entries, Key, str, num, undef, null, bool, long, double, string, array, object, end, entry,
  count,
}
use php_couchbase.Params.Begin.{PpState, ok, begin}
use php_couchbase.Params.Begin.Fresh.{Unread, Fresh, begin-Fresh}
use php_couchbase.Params.Iterate.{cons_id, entry_id, entry_ids, ids}
use php_couchbase.Params.{
  keycount, key_count, Step, item, done, next, next_ids, next_array, next_entry, set_base,
  own_options,
}

abbrev left_of : PpState → Zval → ℕ
left_of s (array es) = count s.hash_pos
left_of s (string b) = if ltb 0 s.cur_idx then 0 else 1
left_of s _ = 0

abbrev ids_left_of : PpState → Zval → Option (List Bytes)
ids_left_of s (array es) = entry_ids s.hash_pos
ids_left_of s (string b) = if ltb 0 s.cur_idx then some [] else some (b ∷ [])
ids_left_of s _ = some []

-- How many ids are left, and which.
unfoldable pub left : PpState → ℕ
left s = left_of s s.zids

unfoldable pub ids_left : PpState → Option (List Bytes)
ids_left s = ids_left_of s s.zids

-- One call of pcbc_pp_next that stored an id.
pub record Advances (s t : PpState) : Type 0 where
  pub fewer : left t < left s
  pub same : ids_left s ≡ cons_id (some t.id) (ids_left t)

abbrev state_of : PpState → Step → PpState
state_of d (item t) = t
state_of d _ = d

-- `s` reads the id `i`, and is then `t`.
abbrev Reads : PpState → PpState → Type 0
Reads s t =
    (left_of t t.zids < left_of s s.zids)
    × (ids_left_of s s.zids ≡ cons_id (some t.id) (ids_left_of t t.zids))

module _ (fetch : Entries → Bytes → Option Zval) where
  -- A state that differs from `s` in the id, the arguments and the place in the array.
  array-Reads :
      (s t : PpState) (all es : Entries) (k : Key) (v : Zval)
      → s.zids ≡ array all
      → s.hash_pos ≡ entry k v es
      → t.zids ≡ array all
      → t.hash_pos ≡ es
      → entry_id k v ≡ some t.id
      → Reads s t
  array-Reads s t all es k v z p z' p' i = rw (z, z', p, p', i) (omega arith, refl)

  next_array-Reads :
      (s t : PpState) (all es : Entries)
      → s.zids ≡ array all
      → s.hash_pos ≡ es
      → next_array fetch s es ≡ item t
      → Reads s t
  unfolding next_array next_entry
  next_array-Reads s t all end z p e = absurd (cc)
  next_array-Reads s t all (entry (str k) v es) z p e = subst (Reads s) (ap (state_of s) e) (
      array-Reads s (record s { id = k; args = own_options fetch v s.args; hash_pos = es }) all es
        (str k) v z p z refl refl)
  next_array-Reads s t all (entry (num k) (string b) es) z p e =
      subst (Reads s) (ap (state_of s) e) (
        array-Reads s (record s { id = b; hash_pos = es }) all es (num k) (string b) z p z refl
          refl)
  next_array-Reads s t all (entry (num k) undef es) z p e = absurd (cc)
  next_array-Reads s t all (entry (num k) null es) z p e = absurd (cc)
  next_array-Reads s t all (entry (num k) _ es) z p e = absurd (cc)

  string-Reads :
      (s t : PpState) (b : Bytes)
      → s.zids ≡ string b
      → s.cur_idx ≡ 0
      → t.zids ≡ string b
      → t.cur_idx ≡ s.cur_idx + 1
      → t.id ≡ b
      → Reads s t
  string-Reads s t b z c z' c' i = rw (z, z', i, c', c) (omega arith, refl)

  next_ids-Reads : (s t : PpState) (z : Zval) → s.zids ≡ z → next_ids fetch s z ≡ item t → Reads s t
  unfolding next_ids
  next_ids-Reads s t (array es) z e = next_array-Reads s t es s.hash_pos z refl e
  next_ids-Reads s t (string b) z e = elim (Bool-cases (ltb 0 s.cur_idx)) [
    | inl over ↦ absurd (ground arith)
    | inr first ↦
        let path : record s { id = b; cur_idx = s.cur_idx + 1 } ≡ t =
          ap (state_of s) (rw first at e) in
        subst (Reads s) path (
          string-Reads s (record s { id = b; cur_idx = s.cur_idx + 1 }) b z (ground arith) z refl
            refl)
  ]
  next_ids-Reads s t undef z e = absurd (cc)
  next_ids-Reads s t null z e = absurd (cc)
  next_ids-Reads s t (bool b) z e = absurd (cc)
  next_ids-Reads s t (long n) z e = absurd (cc)
  next_ids-Reads s t (double n) z e = absurd (cc)
  next_ids-Reads s t (object n) z e = absurd (cc)

  -- A call that stores an id takes it from the ids that are left, and leaves fewer.
  pub next-Advances : (s t : PpState) → next fetch s ≡ item t → Advances s t
  unfolding next left ids_left
  next-Advances s t e =
      let r = next_ids-Reads (record s { args = set_base s.args }) t s.zids refl e in
      record { fewer = r.0; same = r.1 }

  next_array-done :
      (s t : PpState) (es : Entries) → next_array fetch s es ≡ done t → entry_ids es ≡ some []
  unfolding next_array next_entry
  next_array-done s t end e = refl
  next_array-done s t (entry (str k) v es) e = absurd (cc)
  next_array-done s t (entry (num k) (string b) es) e = absurd (cc)
  next_array-done s t (entry (num k) undef es) e = absurd (cc)
  next_array-done s t (entry (num k) _ es) e = absurd (cc)

  next_ids-done :
      (s t : PpState) (z : Zval) → next_ids fetch s z ≡ done t → ids_left_of s z ≡ some []
  unfolding next_ids
  next_ids-done s t (array es) e = next_array-done s t s.hash_pos e
  next_ids-done s t (string b) e = ground arith
  next_ids-done s t undef e = refl
  next_ids-done s t null e = refl
  next_ids-done s t (bool b) e = refl
  next_ids-done s t (long n) e = refl
  next_ids-done s t (double n) e = refl
  next_ids-done s t (object n) e = refl

  -- A call that says that no id is left is right.
  pub next-done : (s t : PpState) → next fetch s ≡ done t → ids_left s ≡ some []
  unfolding next ids_left
  next-done s t e = next_ids-done (record s { args = set_base s.args }) t s.zids e

  Unread-left :
      (s : PpState) (z : Zval)
      → Unread s z
      → (left_of s z ≡ key_count z) × (ids_left_of s z ≡ ids z)
  Unread-left s (array es) u = rw u (refl, refl)
  Unread-left s (string b) u = rw u (refl, refl)
  Unread-left s undef u = absurd u
  Unread-left s null u = absurd u
  Unread-left s (bool b) u = absurd u
  Unread-left s (long n) u = absurd u
  Unread-left s (double n) u = absurd u
  Unread-left s (object n) u = absurd u

  -- After pcbc_pp_begin all the ids of the first argument are left.
  pub left-begin :
      (params : List Zval) (spec : Bytes) (s : PpState)
      → begin fetch params spec ≡ ok s
      → (left s ≡ keycount s) × (ids_left s ≡ ids (get_or params 0 undef))
  unfolding left ids_left keycount
  left-begin params spec s e =
      let f : Fresh fetch (get_or params 0 undef) (ok s) =
        subst (Fresh fetch (get_or params 0 undef)) e (begin-Fresh fetch params spec) in
      rw f.0 (Unread-left s (get_or params 0 undef) f.1)
