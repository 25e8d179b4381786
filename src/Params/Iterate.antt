-- ===== src/Params/Iterate.antt =====
-- paramparser.c: pcbc_pp_next stores every id once, in order, and then says that none is left.
use php_couchbase.Base.{
  subst, ℕ, zero, suc, ◌<◌, ◌≡◌, refl, ap, ◌∙◌, inl, inr, List, [], ◌∷◌, Option, none, some, arith,
  Bytes, length, Option-cases, get_or,
}
use php_couchbase.Zval.{
  Zval, Entries, Key, str, num, undef, null, bool, long, double, string, array, object, end, entry,
  count,
}
use php_couchbase.Params.Begin.{PpState, ok, begin}
use php_couchbase.Params.Begin.Fresh.{Unread, Fresh, begin-Fresh}
use php_couchbase.Params.{
  keycount, key_count, Step, item, done, stray, next, next_ids, next_array, next_entry, set_base,
}

-- The ids that an array or a string stands for; `none` if a value under an integer key is no
-- string.
abbrev pub cons_id : Option Bytes → Option (List Bytes) → Option (List Bytes)
cons_id (some i) (some is) = some (i ∷ is)
cons_id _ _ = none

abbrev pub entry_id : Key → Zval → Option Bytes
entry_id (str k) z = some k
entry_id (num i) (string s) = some s
entry_id (num i) _ = none

abbrev pub entry_ids : Entries → Option (List Bytes)
entry_ids end = some []
entry_ids (entry k z es) = cons_id (entry_id k z) (entry_ids es)

abbrev pub ids : Zval → Option (List Bytes)
ids (string s) = some (s ∷ [])
ids (array es) = entry_ids es
ids _ = none

length-entry_ids : (es : Entries) (is : List Bytes) → entry_ids es ≡ some is → length is ≡ count es
length-entry_ids end is e = ground arith
length-entry_ids (entry k z es) is e = elim (Option-cases (entry_ids es)) [
  | inl n ↦ ground arith
  | inr (js, s) ↦ ground (arith, length-entry_ids es js)
]

module _ (fetch : Entries → Bytes → Option Zval) where
  -- `while (pcbc_pp_next(&state))` on fuel: the ids that it stores.
  abbrev drain_step : (PpState → Option (List Bytes)) → Step → Option (List Bytes)
  drain_step rest (item s) = cons_id (some s.id) (rest s)
  drain_step rest (done s) = some []
  drain_step rest stray = none

  pub drain : ℕ → PpState → Option (List Bytes)
  drain zero s = none
  drain (suc fuel) s = drain_step (drain fuel) (next fetch s)

  next-array :
      (s : PpState) (all es : Entries)
      → s.zids ≡ array all
      → s.hash_pos ≡ es
      → next fetch s ≡ next_array fetch (record s { args = set_base s.args }) es
  unfolding next
  next-array s all es z p =
      ap (next_ids fetch (record s { args = set_base s.args })) z
      ∙ ap (next_array fetch (record s { args = set_base s.args })) p

  drain-array :
      (fuel : ℕ) (s : PpState) (all es : Entries)
      → s.zids ≡ array all
      → s.hash_pos ≡ es
      → count es < fuel
      → drain fuel s ≡ entry_ids es
  unfolding drain next_array next_entry
  drain-array zero s all es z p h = absurd (omega arith)
  drain-array (suc fuel) s all end z p h = rw (next-array s all end z p) refl
  drain-array (suc fuel) s all (entry (str k) v es) z p h =
      rw (next-array s all (entry (str k) v es) z p)
        (ap (cons_id (some k)) (drain-array fuel _ all es z refl (omega arith)))
  drain-array (suc fuel) s all (entry (num k) (string b) es) z p h =
      rw (next-array s all (entry (num k) (string b) es) z p)
        (ap (cons_id (some b)) (drain-array fuel _ all es z refl (omega arith)))
  drain-array (suc fuel) s all (entry (num k) undef es) z p h = rw (next-array s all _ z p) refl
  drain-array (suc fuel) s all (entry (num k) null es) z p h = rw (next-array s all _ z p) refl
  drain-array (suc fuel) s all (entry (num k) _ es) z p h = rw (next-array s all _ z p) refl

  drain-string :
      (s : PpState) (b : Bytes) → s.zids ≡ string b → s.cur_idx ≡ 0 → drain 2 s ≡ some (b ∷ [])
  unfolding drain next next_ids
  drain-string s b z c = rw (z, next_ids) (rw (c, next_ids) (rw (z, next_ids) refl))

  drain-Unread :
      (s : PpState) (z : Zval) → s.zids ≡ z → Unread s z → drain (suc (key_count z)) s ≡ ids z
  drain-Unread s (array es) e u = drain-array (suc (count es)) s es es e u (omega arith)
  drain-Unread s (string b) e u = drain-string s b e u
  drain-Unread s undef e u = absurd u
  drain-Unread s null e u = absurd u
  drain-Unread s (bool b) e u = absurd u
  drain-Unread s (long n) e u = absurd u
  drain-Unread s (double n) e u = absurd u
  drain-Unread s (object n) e u = absurd u

  -- From the state that pcbc_pp_begin leaves, the loop over pcbc_pp_next ends within
  -- pcbc_pp_keycount and one more rounds, and stores the ids of the first argument one by one and
  -- in order, unless one of the array's values under an integer key is no string.
  pub drain-begin :
      (params : List Zval) (spec : Bytes) (s : PpState)
      → begin fetch params spec ≡ ok s
      → drain (suc (keycount s)) s ≡ ids (get_or params 0 undef)
  unfolding keycount
  drain-begin params spec s e =
      let f : Fresh fetch (get_or params 0 undef) (ok s) =
        subst (Fresh fetch (get_or params 0 undef)) e (begin-Fresh fetch params spec) in
      ap (λ z. drain (suc (key_count z)) s) f.0 ∙ drain-Unread s (get_or params 0 undef) f.0 f.1

length-ids : (z : Zval) (is : List Bytes) → ids z ≡ some is → length is ≡ key_count z
length-ids (array es) is e = length-entry_ids es is e
length-ids (string b) is e = ground arith
length-ids undef is e = absurd (cc)
length-ids null is e = absurd (cc)
length-ids (bool b) is e = absurd (cc)
length-ids (long n) is e = absurd (cc)
length-ids (double n) is e = absurd (cc)
length-ids (object n) is e = absurd (cc)
