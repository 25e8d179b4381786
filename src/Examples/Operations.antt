-- ===== src/Examples/Operations.antt =====
-- paramparser.c and src/couchbase/bucket/*.c, with a libcouchbase that answers every command.
use php_couchbase.Base.{
  ℕ, suc, ◌≡◌, ◌≢◌, refl, true, false, List, [], ◌∷◌, map, Option, none, some, Bytes, codes,
  bytes_eq, arith, if◌then◌else◌, length, ◌==◌,
}
use php_couchbase.Zval.{Zval, Entries, str, num, undef, array, string, long, end, entry}
use php_couchbase.OpCookie
use php_couchbase.OpCookie.{OpCookie, init, push, results, get_first_error, lcb_success}
use php_couchbase.Params.{PpState, Outcome, ok, begin, next, keycount, is_mapped}
use php_couchbase.Params.Iterate.{drain, drain-begin}
use php_couchbase.Params.Left.{ids_left}
use php_couchbase.Transcoding.{Encoded, encode_value}
use php_couchbase.Bucket.Schedule.Once.{sent_once}
use php_couchbase.Bucket.Store.Given.{HasCas}
use php_couchbase.Bucket.Store.Cas.{cas_store, replace-sent_once}
use php_couchbase.Document
use php_couchbase.Document.{Document, cas_encode}
use php_couchbase.Lcb.{Env, Command, Response, op_replace, op_append, op_prepend, command_key}
use php_couchbase.Bucket.Results.{
  Return, hash_key, KeyRes, StoreRes, token_or_zero, deliver, proc_results, proc_store_results,
  store_callback,
}
use php_couchbase.Bucket.Results.Mapped.{find}
use php_couchbase.Bucket.Results.Keys.{latest, stored_document, find-store_results}
use php_couchbase.Bucket.Schedule.{
  Progress, Scheduled, finished, returned, stuck, run, schedule, idle,
}
use php_couchbase.Bucket.Schedule.Loop.{run-ne-stuck}
use php_couchbase.Bucket.Schedule.Order.{Schedules, schedule-Schedules}
use php_couchbase.Bucket.Schedule.Outcomes.{run-mapped, run-single, single_ending}
use php_couchbase.Bucket.Store.{upsert_round, replace, append, prepend}
use php_couchbase.Bucket.Store.Commands.{upsert-IsRound}

unfoldable pub fetch : Entries → Bytes → Option Zval
fetch end name = none
fetch (entry (str k) z es) name = if bytes_eq k name then some z else fetch es name
fetch (entry (num i) z es) name = fetch es name

unfoldable pub fetchn : Entries → ℕ → Option Zval
fetchn end i = none
fetchn (entry (num j) z es) i = if j == i then some z else fetchn es i
fetchn (entry (str k) z es) i = fetchn es i

-- The response that reports success to a command.
abbrev pub answer : Command → Response
answer c = record {
  rc = 0;
  key = command_key c;
  value = [];
  itmflags = 0;
  datatype = 0;
  cas = 77;
  counter_value = 0;
  mutation_token = none;
}

abbrev pub accept_one : List Command → Command → ℕ
accept_one [] c = 0
accept_one (d ∷ ds) c = 11

-- Every command is answered; only the first of an operation is accepted.
abbrev pub sample : Env
sample = record {
  fetch = fetch;
  fetchn = fetchn;
  encoder =
      λ z. some (array (entry (num 0) z (entry (num 1) (long 2) (entry (num 2) (long 0) end))));
  stringl = λ bytes n. hash_key n bytes;
  decoder = λ bytes flags datatype. string bytes;
  bucketname = codes "default";
  lcb_einval = 7;
  lcb_error = 10;
  token_is_valid = λ mt. false;
  submit = accept_one;
  wait = map answer;
}

abbrev two_ids : Zval
two_ids = array (entry (num 0) (string (codes "a")) (entry (num 1) (string (codes "b")) end))

abbrev upsert_spec : Bytes
upsert_spec = codes "id|value|expiry,flags,groupid,persist_to,replicate_to"

abbrev two_params : List Zval
two_params = two_ids ∷ string (codes "x") ∷ []

abbrev pub state_or : PpState → Outcome PpState → PpState
state_or d (ok s) = s
state_or d _ = d

abbrev pub no_state : PpState
no_state = record {
  args = [];
  arg_req = 0;
  arg_opt = 0;
  arg_named = 0;
  cur_idx = 0;
  zids = undef;
  hash_pos = end;
  id = [];
}

abbrev two_state : PpState
two_state = state_or no_state (begin fetch two_params upsert_spec)

abbrev progress_or : Progress → Scheduled → Progress
progress_or d (finished p) = p
progress_or d _ = d

abbrev two_progress : Progress
two_progress =
    progress_or (idle none) (schedule sample (upsert_round sample) 3 two_state (idle none))

two_begins : begin fetch two_params upsert_spec ≡ ok two_state
unfolding begin bytes_eq
two_begins = refl

two_finishes : schedule sample (upsert_round sample) 3 two_state (idle none) ≡ finished two_progress
unfolding begin bytes_eq schedule next upsert_round encode_value fetch fetchn
two_finishes = refl

-- The document that a store operation makes of a result.
abbrev store_doc : StoreRes → Document
store_doc r = Document.init sample [] 0 r.cas (some r.token)

abbrev store_res : Response → KeyRes StoreRes
store_res rb = record {
  key = rb.key;
  key_len = length rb.key;
  fields = record { cas = rb.cas; token = token_or_zero rb.mutation_token };
}

-- The second command is not accepted, and no exception says so.
run-mapped_example :
    (ret : Return) × (run sample upsert_spec none
        (upsert_round sample)
        store_callback
        (proc_store_results sample)
        two_params
      ≡ returned ret)
    × ((key : Bytes)
        → find key ret
          ≡ latest (stored_document sample) key (sample.wait two_progress.accepted) none)
unfolding is_mapped begin bytes_eq schedule next upsert_round encode_value fetch fetchn keycount
run-mapped_example =
    run-mapped sample upsert_spec none (upsert_round sample) two_params two_state two_progress refl
      refl refl

abbrev one_params : List Zval
one_params = string (codes "a") ∷ string (codes "x") ∷ []

abbrev one_state : PpState
one_state = state_or no_state (begin fetch one_params upsert_spec)

abbrev one_progress : Progress
one_progress =
    progress_or (idle none) (schedule sample (upsert_round sample) 2 one_state (idle none))

run-single_example :
    run sample upsert_spec none
      (upsert_round sample)
      store_callback
      (proc_results store_doc)
      one_params
    ≡ single_ending sample store_doc store_res store_callback
        (λ c rb. unfold store_callback in refl)
        one_progress
unfolding is_mapped begin bytes_eq schedule next upsert_round encode_value fetch fetchn keycount
run-single_example =
    run-single sample store_doc store_res store_callback (λ c rb. unfold store_callback in refl)
      upsert_spec none (upsert_round sample) one_params one_state one_progress refl refl refl

schedule-Schedules_example : Schedules (idle none) two_progress (codes "a" ∷ codes "b" ∷ [])
unfolding begin bytes_eq schedule next upsert_round encode_value fetch fetchn ids_left
schedule-Schedules_example =
    schedule-Schedules sample (upsert_round sample) (upsert-IsRound sample refl) 3 two_state
      (idle none) two_progress (codes "a" ∷ codes "b" ∷ []) refl refl

run-ne-stuck_example :
    run sample upsert_spec none
      (upsert_round sample)
      store_callback
      (proc_store_results sample)
      two_params
    ≢ stuck
run-ne-stuck_example =
    run-ne-stuck sample store_callback (proc_store_results sample) upsert_spec none
      (upsert_round sample) two_params

drain-begin_example :
    drain fetch (suc (keycount two_state)) two_state ≡ some (codes "a" ∷ codes "b" ∷ [])
unfolding begin bytes_eq
drain-begin_example = drain-begin fetch two_params upsert_spec two_state refl

abbrev answer_b : Response
answer_b = record {
  rc = 13;
  key = codes "b";
  value = [];
  itmflags = 0;
  datatype = 0;
  cas = 0;
  counter_value = 0;
  mutation_token = none;
}

find-store_results_example :
    let r = proc_store_results sample (deliver store_callback OpCookie.init (answer_b ∷ [])) true in
    (r.0 ≡ lcb_success) × (find (codes "b") r.1 ≡ some (Document.init_error 13))
unfolding bytes_eq
find-store_results_example = find-store_results sample (codes "b") (answer_b ∷ [])

abbrev encoded_x : Encoded
encoded_x = record { bytes = codes "x"; flags = 2; datatype = 0 }

abbrev cas_option : Entries
cas_option = entry (str (codes "cas")) (cas_encode 99) end

sample-HasCas : HasCas sample cas_option 99
unfolding HasCas fetch
sample-HasCas name = refl

abbrev cas_params : List Zval
cas_params = string (codes "a") ∷ string (codes "x") ∷ array cas_option ∷ []

replace-sent_once_example :
    (replace sample cas_params ≡ sent_once sample (cas_store op_replace (codes "a") encoded_x 2 99))
    × (append sample cas_params ≡ sent_once sample (cas_store op_append (codes "a") encoded_x 0 99))
    × (prepend sample cas_params
        ≡ sent_once sample (cas_store op_prepend (codes "a") encoded_x 0 99))
unfolding encode_value fetchn
replace-sent_once_example =
    replace-sent_once sample (codes "a") (string (codes "x")) encoded_x 99 (omega arith) refl refl
      cas_option sample-HasCas

abbrev many_params : List Zval
many_params =
    long 0
    ∷ long 1
    ∷ long 2
    ∷ long 3
    ∷ long 4
    ∷ long 5
    ∷ long 6
    ∷ long 7
    ∷ long 8
    ∷ long 9
    ∷ long 10
    ∷ []
