-- ===== src/Managers/Indexes/Ignored.antt =====
-- n1ix_create.c, n1ix_drop.c and n1ix_list.c: which errors are thrown.
use php_couchbase.Base.{
  ℕ, ◌≡◌, refl, ◌∙◌, inl, inr, Bool, List, [], ◌∷◌, Option, none, some, map, ◌==◌, ◌&&◌,
  if◌then◌else◌, Bool-cases,
}
use php_couchbase.Zval.{Zval, null, array}
use php_couchbase.Search.{numbered}
use php_couchbase.OpCookie.{lcb_success}
use php_couchbase.OpCookie.Chain.{first_failure}
use php_couchbase.OpCookie.Delivered.{results-deliver, get_first_error-deliver}
use php_couchbase.Managers.Indexes.{
  IndexSpec, IndexResponse, IndexEnv, status_of, first_status, listed_of, first_list, n1ix_create,
  n1ix_drop, n1ix_list,
}

-- The first code that is not that of success.
abbrev pub first_rc : List IndexResponse → ℕ
first_rc [] = lcb_success
first_rc (r ∷ rs) = if r.rc == lcb_success then first_rc rs else r.rc

-- The specifications of the first response.
abbrev pub first_specs : IndexEnv → List IndexResponse → Zval
first_specs env [] = null
first_specs env (r ∷ rs) = array (numbered 0 (listed_of env r).1)

abbrev pub code_if : ℕ → Option ℕ
code_if err = if err == lcb_success then none else some err

module _ (env : IndexEnv) where
  first_failure-status :
      (rs : List IndexResponse) → first_failure (map (status_of env) rs) ≡ first_rc rs
  unfolding status_of
  first_failure-status [] = refl
  first_failure-status (r ∷ rs) = rw (first_failure-status rs) refl

  first_failure-listed :
      (rs : List IndexResponse) → first_failure (map (listed_of env) rs) ≡ first_rc rs
  unfolding listed_of
  first_failure-listed [] = refl
  first_failure-listed (r ∷ rs) = rw (first_failure-listed rs) refl

  first_status-first_rc : (spec : IndexSpec) → first_status env spec ≡ first_rc (env.responses spec)
  unfolding first_status
  first_status-first_rc spec =
      get_first_error-deliver (status_of env) (env.responses spec)
      ∙ first_failure-status (env.responses spec)

  first_list-listed :
      (err : ℕ) (rs : List IndexResponse)
      → first_list env err (map (listed_of env) rs)
        ≡ (if err == lcb_success then first_specs env rs else null)
  unfolding first_list listed_of
  first_list-listed err [] = elim (Bool-cases (err == lcb_success)) [
    | inl e ↦ rw e refl
    | inr e ↦ rw e refl
  ]
  first_list-listed err (r ∷ rs) = refl

  -- Once libcouchbase has accepted it, creating an index throws the first error among the responses, but
  -- for LCB_KEY_EEXISTS where it is to be ignored; dropping one does the same with LCB_KEY_ENOENT; and
  -- listing the indexes gives those of the first response if there is no error, and throws it
  -- otherwise.
  pub indexes-ended :
      (spec : IndexSpec) (ignore : Bool)
      → env.create spec ≡ lcb_success
      → env.drop spec ≡ lcb_success
      → env.list spec ≡ lcb_success
      → let err = first_rc (env.responses spec) in
        n1ix_create env spec ignore
          ≡ (null, code_if (if err == env.key_eexists && ignore then lcb_success else err))
        × n1ix_drop env spec ignore
          ≡ (null, code_if (if err == env.key_enoent && ignore then lcb_success else err))
        × n1ix_list env spec
          ≡ (if err == lcb_success then first_specs env (env.responses spec) else null, code_if err)
  unfolding n1ix_create n1ix_drop n1ix_list
  indexes-ended spec ignore c d l = (
    rw (c, first_status-first_rc spec) refl,
    rw (d, first_status-first_rc spec) refl,
    rw
        (
          l,
          get_first_error-deliver (listed_of env) (env.responses spec),
          results-deliver (listed_of env) (env.responses spec),
          first_failure-listed (env.responses spec),
          first_list-listed (first_rc (env.responses spec)) (env.responses spec),
        )
        refl,
  )
