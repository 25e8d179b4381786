-- ===== src/Params/Begin/Fresh.antt =====
-- paramparser.c: the state that pcbc_pp_begin leaves stands before the first id.
use php_couchbase.Base.{
  if_both, subst, sym, not, ◌&&◌, ℕ, zero, suc, ◌≡◌, refl, List, [], ◌∷◌, Option, none, some, arith,
  Bytes, length, ltb, ◌==◌, ◌||◌, get_or, codes, bytes_eq,
}
use php_couchbase.Zval.{Zval, Entries, undef, null, bool, long, double, string, array, object}
use php_couchbase.Params.Begin.{
  PpState, StateArg, Outcome, ok, failure, fault, begin, Scan, scan, scan_char, add_arg, end_name,
  after_name, count_arg, store_arg, check_ids, with_options, options_of, finish_scan, and_then,
  filled, stored,
}

-- No id was read of `z`.
abbrev pub Unread : PpState → Zval → Type 0
Unread s (string b) = s.cur_idx ≡ 0
Unread s (array es) = s.hash_pos ≡ es
Unread s _ = ⊥

-- What the scan of the specification leaves alone.
record IsUntouched (z : Zval) (s : PpState) : Type 0 where
  same_ids : s.zids ≡ z
  no_id : s.cur_idx ≡ 0

count_arg-IsUntouched :
    (z : Zval) (n : ℕ) (s : PpState) → IsUntouched z s → IsUntouched z (count_arg n s)
unfolding count_arg
count_arg-IsUntouched z zero s u = ground arith
count_arg-IsUntouched z (suc zero) s u = ground arith
count_arg-IsUntouched z (suc (suc zero)) s u = ground arith
count_arg-IsUntouched z (suc (suc (suc n))) s u = u

store_arg-IsUntouched :
    (z : Zval) (n : ℕ) (a : StateArg) (s : PpState)
    → IsUntouched z s
    → IsUntouched z (store_arg n a s)
unfolding store_arg
store_arg-IsUntouched z zero a s u = u
store_arg-IsUntouched z (suc n) a s u = record { same_ids = u.same_ids; no_id = u.no_id }

abbrev Keeps : Zval → Outcome Scan → Type 0
Keeps z (ok t) = IsUntouched z t.state
Keeps z failure = Unit
Keeps z fault = Unit

stored-IsUntouched :
    (z : Zval) (params : List Zval) (t : Scan)
    → IsUntouched z t.state
    → IsUntouched z (stored params t).state
unfolding stored
stored-IsUntouched z params t u =
    count_arg-IsUntouched z t.arg_type _ (store_arg-IsUntouched z t.arg_num _ t.state u)

add_arg-Keeps :
    (z : Zval) (params : List Zval) (t : Scan) → IsUntouched z t.state → Keeps z (add_arg params t)
unfolding add_arg
add_arg-Keeps z params t u =
    if_both (Keeps z) (t.arg_num == 0 && not (bytes_eq t.arg_name (codes "id"))) {yes = failure}
      {no = ok (stored params t)} tt (stored-IsUntouched z params t u)

end_name-Keeps :
    (z : Zval) (params : List Zval) (t : Scan) → IsUntouched z t.state → Keeps z (end_name params t)
unfolding end_name
end_name-Keeps z params t u =
    if_both (Keeps z) (length t.arg_name == 0) u (add_arg-Keeps z params t u)

after_name-Keeps : (z : Zval) (c : ℕ) (r : Outcome Scan) → Keeps z r → Keeps z (after_name c r)
unfolding after_name
after_name-Keeps z c (ok t) h = record { same_ids = h.same_ids; no_id = h.no_id }
after_name-Keeps z c failure h = tt
after_name-Keeps z c fault h = tt

scan_char-Keeps :
    (z : Zval) (params : List Zval) (c : ℕ) (t : Scan)
    → IsUntouched z t.state
    → Keeps z (scan_char params c t)
unfolding scan_char
scan_char-Keeps z params c t u =
    if_both (Keeps z) (c == b',' || c == b'|')
      (after_name-Keeps z c (end_name params t) (end_name-Keeps z params t u))
      (record { same_ids = u.same_ids; no_id = u.no_id })

and_then-Keeps :
    (z : Zval) (r : Outcome Scan) (f : Scan → Outcome Scan)
    → Keeps z r
    → ((t : Scan) → IsUntouched z t.state → Keeps z (f t))
    → Keeps z (and_then r f)
and_then-Keeps z (ok t) f h k = k t h
and_then-Keeps z failure f h k = tt
and_then-Keeps z fault f h k = tt

scan-Keeps :
    (z : Zval) (params : List Zval) (spec : Bytes) (t : Scan)
    → IsUntouched z t.state
    → Keeps z (scan params spec t)
unfolding scan
scan-Keeps z params [] t u = end_name-Keeps z params t u
scan-Keeps z params (c ∷ spec) t u =
    and_then-Keeps z (scan_char params c t) (scan params spec) (scan_char-Keeps z params c t u)
      (scan-Keeps z params spec)

module _ (fetch : Entries → Bytes → Option Zval) where
  abbrev pub Fresh : Zval → Outcome PpState → Type 0
  Fresh z (ok s) = (s.zids ≡ z) × Unread s z
  Fresh z failure = Unit
  Fresh z fault = Unit

  check_ids-Fresh : (z : Zval) (s : PpState) → IsUntouched z s → Fresh z (check_ids fetch s z)
  unfolding check_ids
  check_ids-Fresh (array es) s u = (u.same_ids, refl)
  check_ids-Fresh (string b) s u = (u.same_ids, u.no_id)
  check_ids-Fresh undef s u = tt
  check_ids-Fresh null s u = tt
  check_ids-Fresh (bool b) s u = tt
  check_ids-Fresh (long n) s u = tt
  check_ids-Fresh (double n) s u = tt
  check_ids-Fresh (object n) s u = tt

  with_options-Fresh :
      (z : Zval) (s : PpState) (o : Option Entries)
      → IsUntouched z s
      → Fresh z (with_options fetch s o)
  unfolding with_options
  with_options-Fresh z s o u =
      subst (λ w. Fresh z (check_ids fetch (filled fetch s o) w)) (sym u.same_ids)
        (check_ids-Fresh z (filled fetch s o)
          (unfold filled in record { same_ids = u.same_ids; no_id = u.no_id }))

  options_of-Fresh :
      (z : Zval) (s : PpState) (o : Option Zval) → IsUntouched z s → Fresh z (options_of fetch s o)
  unfolding options_of
  options_of-Fresh z s none u = with_options-Fresh z s none u
  options_of-Fresh z s (some (array es)) u = with_options-Fresh z s (some es) u
  options_of-Fresh z s (some _) u = tt

  finish_scan-Fresh :
      (z : Zval) (params : List Zval) (r : Outcome Scan)
      → Keeps z r
      → Fresh z (finish_scan fetch params r)
  unfolding finish_scan
  finish_scan-Fresh z params (ok t) h =
      if_both (Fresh z) (ltb (length params) t.state.arg_req) tt (options_of-Fresh z t.state _ h)
  finish_scan-Fresh z params failure h = tt
  finish_scan-Fresh z params fault h = tt

  -- A state of pcbc_pp_begin has the first argument for its ids, an array or a string, and
  -- stands before the first of them.
  pub begin-Fresh :
      (params : List Zval) (spec : Bytes) → Fresh (get_or params 0 undef) (begin fetch params spec)
  unfolding begin
  begin-Fresh params spec = if_both (Fresh _) (ltb 10 (length params)) tt (
      finish_scan-Fresh _ params _
        (scan-Keeps _ params spec _ (record { same_ids = refl; no_id = refl })))
