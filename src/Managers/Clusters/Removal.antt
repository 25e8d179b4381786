-- ===== src/Managers/Clusters/Removal.antt =====
-- cluster_manager.c: what removing a user says.
use php_couchbase.Base.{
  ℕ, ◌-◌, ◌≡◌, ◌≢◌, refl, inl, inr, true, false, List, [], ◌∷◌, ◌++◌, none, some, Bytes, codes,
  ◌==◌, if◌then◌else◌, Bool-cases, All, arith, length,
}
use php_couchbase.MutationToken.{estrdup}
use php_couchbase.MutationToken.RoundTrip.{estrdup-eq}
use php_couchbase.Zval.{null, bool}
use php_couchbase.OpCookie.{lcb_success}
use php_couchbase.Http.{
  CmdHttp, RespHttp, HttpEnv, Thrown, lcb, pcbc, management_type, delete, content_type_form,
}
use php_couchbase.Http.Replies.{first_rc, is_many, value_of, http_reply, http_request-http_reply}
use php_couchbase.Managers.{Outcome, undefined, done, value, spaces, padded}
use php_couchbase.Managers.Clusters.{
  users_path, is_blank, accepted_or_thrown, invalid_domain, remove_at, remove_user,
}

-- The command that removes the user of a name.
abbrev pub removal : Bytes → Bytes → CmdHttp
removal folder name = record {
  type = management_type;
  method = delete;
  path = some (folder ++ b'/' ∷ name);
  content_type = content_type_form;
  body = none;
}

module _ (env : HttpEnv) (all : List CmdHttp) where
  -- The body is thrown, as a C string.
  abbrev complaint : List Thrown → Bytes → Outcome
  complaint thrown body = done all (thrown ++ pcbc (estrdup body) env.lcb_einval ∷ []) (value null)

  -- What the method says to a body: nothing that is defined if it is empty, true if it begins with two
  -- quotes, and else the body is thrown.
  abbrev pub said : List Thrown → Bytes → Outcome
  said thrown [] = undefined all
  said thrown (c ∷ []) = complaint thrown (c ∷ [])
  said thrown (c ∷ d ∷ s) =
      if c == 34
      then (if d == 34 then done all thrown (value (bool true)) else complaint thrown (c ∷ d ∷ s))
      else complaint thrown (c ∷ d ∷ s)

  -- What it says to the responses of a request.
  abbrev pub answer : List RespHttp → Outcome
  answer [] = undefined all
  answer (r ∷ rs) =
      if first_rc (r ∷ rs) == lcb_success
      then said (if is_many (r ∷ rs) then lcb env.lcb_error ∷ [] else []) r.body
      else undefined all

module _ (env : HttpEnv) (sent : List CmdHttp) where
  -- How the method ends that asks in this folder.
  abbrev pub asked_in : Bytes → Bytes → Outcome
  asked_in folder name =
      let cmd = removal folder name in
      if env.submit sent cmd == lcb_success
      then answer env (sent ++ cmd ∷ []) (env.responses sent cmd)
      else undefined (sent ++ cmd ∷ [])

  blank-said :
      (all : List CmdHttp) (thrown : List Thrown) (c : ℕ) (s : Bytes)
      → (if is_blank (c ∷ s)
          then done all thrown (value (bool true))
          else complaint env all thrown (c ∷ s))
        ≡ said env all thrown (c ∷ s)
  unfolding is_blank
  blank-said all thrown c [] = refl
  blank-said all thrown c (d ∷ s) = elim (Bool-cases (c == 34)) [
    | inl e ↦ rw e refl
    | inr e ↦ rw e refl
  ]

  accepted-said :
      (all : List CmdHttp) (thrown : List Thrown) (body : Bytes)
      → accepted_or_thrown env sent all thrown (some (value_of env false body))
        ≡ said env all thrown body
  unfolding accepted_or_thrown
  accepted-said all thrown [] = refl
  accepted-said all thrown (c ∷ s) = blank-said all thrown c s

  replied :
      (all : List CmdHttp) (rs : List RespHttp)
      → let r = http_reply env false all rs in
        accepted_or_thrown env sent r.sent r.thrown r.ret ≡ answer env all rs
  unfolding accepted_or_thrown
  replied all [] = refl
  replied all (r ∷ rs) = elim (Bool-cases (first_rc (r ∷ rs) == lcb_success)) [
    | inl fine ↦ rw fine (accepted-said all _ r.body)
    | inr failed ↦ rw failed refl
  ]

  padded-eq : (name : Bytes) → All (λ c. c ≢ 0) name → padded name ≡ name
  unfolding padded
  padded-eq name z =
      let none_left : length name - length name ≡ 0 = omega arith in
      rw (estrdup-eq name z, none_left) (unfold spaces in refl)

  asked :
      (folder name : Bytes)
      → (env.lcb_error == lcb_success) ≡ false
      → All (λ c. c ≢ 0) name
      → remove_at env sent name (some folder) ≡ asked_in folder name
  unfolding remove_at accepted_or_thrown
  asked folder name h z =
      rw (padded-eq name z, http_request-http_reply env false sent (removal folder name) h)
        (elim (Bool-cases (env.submit sent (removal folder name) == lcb_success)) [
          | inl taken ↦ rw taken (
              replied (sent ++ removal folder name ∷ []) (env.responses sent (removal folder name)))
          | inr refused ↦ rw refused refl
        ])

  -- ClusterManager::removeUser, with a C string as the name, deletes the user at its path below that of
  -- the domain, 1 or 2, and throws "Invalid arguments." for another domain. When the first body is not empty
  -- and no response failed, it returns true if that body begins with two quotes, and throws the body
  -- otherwise, after the exception that a second response causes. When the request is refused, a
  -- response failed, none came or the first body is empty, it takes a value that is no string for one.
  -- LCB_ERROR is not the code of success.
  pub remove_user-said :
      (name : Bytes) (domain : ℕ)
      → (env.lcb_error == lcb_success) ≡ false
      → All (λ c. c ≢ 0) name
      → remove_user env sent name domain ≡ (
          if domain == 1
          then asked_in (codes "/settings/rbac/users/local") name
          else if domain == 2
          then asked_in (codes "/settings/rbac/users/external") name
          else done sent (pcbc (codes "Invalid arguments.") env.lcb_einval ∷ []) (value null))
  unfolding remove_user users_path
  remove_user-said name domain h z = elim (Bool-cases (domain == 1)) [
    | inl local ↦ rw local (asked (codes "/settings/rbac/users/local") name h z)
    | inr other ↦ rw other (elim (Bool-cases (domain == 2)) [
      | inl external ↦ rw external (asked (codes "/settings/rbac/users/external") name h z)
      | inr invalid ↦ rw invalid (unfold remove_at invalid_domain in refl)
    ])
  ]
