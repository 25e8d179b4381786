-- ===== src/Bucket/Schedule/Once.antt =====
-- An operation on one id that sends one command.
use php_couchbase.Base.{
  ℕ, suc, ◌≡◌, refl, ◌∙◌, inl, inr, false, List, [], ◌∷◌, Option, some, Bytes, ◌==◌, if◌then◌else◌,
  Bool-cases,
}
use php_couchbase.Zval.{Zval}
use php_couchbase.OpCookie.{lcb_success}
use php_couchbase.Params.{PpState, item, done, ok, begin, next, keycount, is_mapped}
use php_couchbase.Lcb.{Env, Command, Response}
use php_couchbase.Document
use php_couchbase.Bucket.Results.{
  Return, null, document, token_or_zero, store_callback, proc_store_results,
}
use php_couchbase.Bucket.Results.Collect.{first_rc}
use php_couchbase.Bucket.Results.Unmapped.{last_return}
use php_couchbase.Bucket.Results.Keys.{store_res}
use php_couchbase.Bucket.Schedule.{
  Round, send, Progress, finished, schedule, Ending, returned, thrown, run, finish, idle,
}
use php_couchbase.Bucket.Schedule.Outcomes.{run-single}

-- The loop takes one id, of which the round sends a command, and then ends.
pub record IsOnce (env : Env) (build : PpState → Round) (s : PpState) (c : Command) : Type 0 where
  pub taken : PpState
  pub over : PpState
  pub one : keycount s ≡ 1
  pub single : is_mapped s ≡ false
  pub takes : next env.fetch s ≡ item taken
  pub sends : build taken ≡ send c
  pub ends : next env.fetch taken ≡ done over

module _ (env : Env) where
  -- The document of the last response: its CAS and token.
  abbrev pub last_stored : List Response → Return → Return
  last_stored [] ret = ret
  last_stored (rb ∷ rs) ret =
      last_stored rs
        (document (Document.init env [] 0 rb.cas (some (token_or_zero rb.mutation_token))))

  last_return-last_stored :
      (rs : List Response) (ret : Return)
      → last_return (λ r. Document.init env [] 0 r.cas (some r.token)) (store_res env) rs ret
        ≡ last_stored rs ret
  last_return-last_stored [] ret = refl
  last_return-last_stored (rb ∷ rs) ret = last_return-last_stored rs _

  -- How a store operation ends that sends one command: by the code of a command that libcouchbase
  -- refuses, by that of the first response that failed, or with the document of the last response.
  abbrev pub sent_once : Command → Ending
  sent_once c =
      let rs = env.wait (c ∷ []) in
      if env.submit [] c == lcb_success
      then (if first_rc rs == lcb_success
          then returned (last_stored rs null)
          else thrown (first_rc rs))
      else thrown (env.submit [] c)

  accepted_progress : Command → Progress
  accepted_progress c = record { nscheduled = 1; err = some (env.submit [] c); accepted = c ∷ [] }

  refused_progress : Command → Progress
  refused_progress c = record { nscheduled = 0; err = some (env.submit [] c); accepted = [] }

  schedule-once :
      (err : Option ℕ) (build : PpState → Round) (s : PpState) (c : Command)
      → IsOnce env build s c
      → schedule env build (suc (keycount s)) s (idle err)
        ≡ finished
            (if env.submit [] c == lcb_success then accepted_progress c else refused_progress c)
  unfolding schedule accepted_progress refused_progress
  schedule-once err build s c once = elim (Bool-cases (env.submit [] c == lcb_success)) [
    | inl fine ↦ rw (once.one, once.takes, once.sends, once.ends, fine) refl
    | inr bad ↦ rw (once.one, once.takes, once.sends, once.ends, bad) refl
  ]

  pub run-once :
      (spec : Bytes) (err : Option ℕ) (build : PpState → Round) (params : List Zval) (s : PpState)
      (c : Command)
      → begin env.fetch params spec ≡ ok s
      → IsOnce env build s c
      → run env spec err build store_callback (proc_store_results env) params ≡ sent_once c
  unfolding proc_store_results store_callback
  run-once spec err build params s c b once =
      run-single env (λ r. Document.init env [] 0 r.cas (some r.token)) (store_res env)
        store_callback (λ cookie rb. refl) spec err build params s _ b once.single
        (schedule-once err build s c once)
      ∙ elim (Bool-cases (env.submit [] c == lcb_success)) [
        | inl fine ↦
            rw (fine, last_return-last_stored (env.wait (c ∷ [])) null)
              (unfold accepted_progress in refl)
        | inr bad ↦ rw bad (unfold refused_progress finish in rw bad refl)
      ]
