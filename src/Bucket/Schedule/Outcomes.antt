-- ===== src/Bucket/Schedule/Outcomes.antt =====
-- How the operations end, by the way the loop has ended and by the responses.
use php_couchbase.Base.{
  ℕ, suc, ◌≡◌, true, false, List, Option, none, some, [], refl, arith, Bytes, ◌==◌, if◌then◌else◌,
}
use php_couchbase.Zval.{Zval}
use php_couchbase.OpCookie.{OpCookie, lcb_success}
use php_couchbase.OpCookie
use php_couchbase.Params.{PpState, ok, begin, keycount, is_mapped}
use php_couchbase.Lcb.{Env, Response}
use php_couchbase.Document.{Document}
use php_couchbase.Bucket.Results.{
  Return, null, KeyRes, Callback, deliver, proc_results, proc_store_results, store_callback,
}
use php_couchbase.Bucket.Results.Mapped.{find}
use php_couchbase.Bucket.Results.Keys.{latest, stored_document, find-store_results}
use php_couchbase.Bucket.Results.Collect.{PushesOf, first_rc}
use php_couchbase.Bucket.Results.Unmapped.{last_return, proc_results-single}
use php_couchbase.Bucket.Schedule.{
  Round, Progress, finished, schedule, Ending, returned, thrown, unspecified, run, run_state,
  after_loop, conclude, finish, idle,
}

module _ {ℓ} {A : Type ℓ} (env : Env) (doc_of : A → Document) (res_of : Response → KeyRes A)
    (callback : Callback A) (pushes : PushesOf res_of callback) where
  -- How an operation on one id ends, once its loop has.
  abbrev pub single_ending : Progress → Ending
  single_ending p =
      let rs = env.wait p.accepted in
      if p.nscheduled == 0
      then finish p.err null
      else if first_rc rs == lcb_success
      then returned (last_return doc_of res_of rs null)
      else thrown (first_rc rs)

  pub conclude-single :
      (p : Progress) → conclude env callback (proc_results doc_of) false p ≡ single_ending p
  unfolding conclude finish
  conclude-single p =
      rw (proc_results-single doc_of res_of callback pushes (env.wait p.accepted)) (ground arith)

  -- An operation on one id that has scheduled nothing throws the loop's error. Otherwise it throws
  -- the code of the first response that failed, and without one returns the last document.
  pub run-single :
      (spec : Bytes) (err : Option ℕ) (build : PpState → Round) (params : List Zval) (s : PpState)
      (p : Progress)
      → begin env.fetch params spec ≡ ok s
      → is_mapped s ≡ false
      → schedule env build (suc (keycount s)) s (idle err) ≡ finished p
      → run env spec err build callback (proc_results doc_of) params ≡ single_ending p
  unfolding run run_state after_loop
  run-single spec err build params s p b m e =
      rw (b, run) (rw (e, after_loop) (rw m (conclude-single p)))

-- How a method ends that has sent nothing: its error is thrown, if it has set one.
abbrev pub nothing_sent : Option ℕ → Ending
nothing_sent none = unspecified
nothing_sent (some err) = if err == lcb_success then returned null else thrown err

finish-nothing_sent : (err : Option ℕ) → finish err null ≡ nothing_sent err
unfolding finish
finish-nothing_sent none = refl
finish-nothing_sent (some err) = refl

module _ (env : Env) where
  -- The value that a store operation on an array returns once a command was scheduled.
  mapped_return : Progress → Return
  mapped_return p =
      (proc_store_results env (deliver store_callback OpCookie.init (env.wait p.accepted)) true).1

  conclude-mapped :
      (p : Progress)
      → conclude env store_callback (proc_store_results env) true p
        ≡ (if p.nscheduled == 0 then nothing_sent p.err else returned (mapped_return p))
  unfolding conclude finish mapped_return
  conclude-mapped p =
      let fine = (find-store_results env [] (env.wait p.accepted)).0 in
      rw (finish-nothing_sent p.err, fine) refl

  -- A store operation on an array of ids whose loop has scheduled a command returns a value, also when
  -- the loop has stopped with an error, and whatever the responses are: that error is lost. Under each
  -- key the value has the document of the last response with that key: the CAS and the token, or the
  -- response's error. A loop that has scheduled nothing ends the operation with its error.
  pub run-mapped :
      (spec : Bytes) (err : Option ℕ) (build : PpState → Round) (params : List Zval) (s : PpState)
      (p : Progress)
      → begin env.fetch params spec ≡ ok s
      → is_mapped s ≡ true
      → schedule env build (suc (keycount s)) s (idle err) ≡ finished p
      → (ret : Return) × (run env spec err build store_callback (proc_store_results env) params
          ≡ (if p.nscheduled == 0 then nothing_sent p.err else returned ret))
        × ((key : Bytes)
            → find key ret ≡ latest (stored_document env) key (env.wait p.accepted) none)
  unfolding run run_state after_loop
  run-mapped spec err build params s p b m e = (
    mapped_return p,
    rw (b, run) (rw (e, after_loop) (rw m (conclude-mapped p))),
    λ key. unfold mapped_return in (find-store_results env key (env.wait p.accepted)).1,
  )
