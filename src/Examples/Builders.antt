-- ===== src/Examples/Builders.antt =====
-- The sub-document operations and the data structures of bucket.c.
use php_couchbase.Base.{
  ℕ, ◌≡◌, refl, Bool, true, false, [], ◌∷◌, none, some, arith, codes, bytes_eq, ◌==◌,
}
use php_couchbase.Zval.{Zval, Entries, null, string, array, bool, num, long, end, entry}
use php_couchbase.Lcb.{Response}
use php_couchbase.Transcoding.{decode_value}
use php_couchbase.Subdoc.{SubdocEnv, SdResponse}
use php_couchbase.Subdoc.MutateIn.{multi_value, init}
use php_couchbase.Subdoc.MutateIn.Built.{
  remove_call, counter_call, array_append_all_call, calls, IsBuilt, calls-IsBuilt,
}
use php_couchbase.Subdoc.MutateIn.Multivalue.{IsBracketed, multi_value-IsBracketed}
use php_couchbase.Structures.{answered}
use php_couchbase.Structures.Element.{queue_remove}
use php_couchbase.Structures.Queue.{last_lookup, last_removal, queue_remove-commands}
use php_couchbase.Structures.Scan.{is_found, set_exists, set_remove}
use php_couchbase.Structures.Sets.{here, later, element_removal, sets-First}
use php_couchbase.Timeouts.{
  Control, op_timeout, view_timeout, find_control, set_controls, set_property, get_property,
}
use php_couchbase.Timeouts.Names.{read_back, get_property-set_property}
use php_couchbase.Examples.Operations.{sample, fetch, fetchn}

multi_value-IsBracketed_example :
    (multi_value (codes " [1,2] ") ≡ some (codes "1,2")
      → IsBracketed (codes " [1,2] ") (codes "1,2"))
    × (IsBracketed (codes " [1,2] ") (codes "1,2")
        → multi_value (codes " [1,2] ") ≡ some (codes "1,2"))
multi_value-IsBracketed_example = multi_value-IsBracketed (codes " [1,2] ") (codes "1,2")

multi_value-some : multi_value (codes " [1,2] ") ≡ some (codes "1,2")
unfolding multi_value
multi_value-some = refl

abbrev set_values : Entries
set_values =
    entry (num 0) (string (codes "a")) (entry (num 1) (long 3) (entry (num 2) (long 3) end))

-- The response to the get of a set, and the two to a lookup.
abbrev found_set : Response
found_set = record {
  rc = 0;
  key = codes "s";
  value = codes "[]";
  itmflags = 0;
  datatype = 0;
  cas = 77;
  counter_value = 0;
  mutation_token = none;
}

abbrev failed_path : SdResponse
failed_path = record {
  rc = 38;
  cas = 99;
  mutation_token = none;
  entries = record { status = 0; value = codes "1"; index = 0 } ∷ [];
}

abbrev is_long_three : Zval → Zval → Bool
is_long_three a (long n) = n == 3
is_long_three a _ = false

abbrev world : SubdocEnv
world = record {
  lcb = record sample {
    decoder = λ bytes flags datatype. array set_values;
    wait = λ cs. found_set ∷ [];
  };
  json_encode = λ z. some (codes " [1,2]");
  json_decode = λ b. some (long 1);
  fetch_bool = λ es name. false;
  is_identical = is_long_three;
  property_count = λ handle. 0;
  multi_failure = 38;
  submit = λ sent cmd. 0;
  responses = λ sent cmd. failed_path ∷ [];
}

calls-IsBuilt_example : IsBuilt (
    calls world (init (codes "d") 5) (
      array_append_all_call (codes "p") (array end) none
      ∷ counter_call (codes "n") 3 none
      ∷ remove_call (codes "q") none
      ∷ []))
calls-IsBuilt_example = calls-IsBuilt world (codes "d") 5 (
    array_append_all_call (codes "p") (array end) none
    ∷ counter_call (codes "n") 3 none
    ∷ remove_call (codes "q") none
    ∷ [])

-- After a multi-path failure the last element is removed on any CAS.
queue_remove-commands_example :
    (queue_remove world [] (codes "d")).0
    ≡ last_lookup (codes "d") ∷ last_removal (codes "d") 0 ∷ []
unfolding fetch fetchn bytes_eq
queue_remove-commands_example =
    queue_remove-commands world [] (codes "d") failed_path
      (record { status = 0; value = codes "1"; index = 0 }) refl refl refl (omega arith) (λ z. refl)
      (λ z es. refl)

decoded_set : decode_value world.lcb (codes "[]") 0 0 ≡ array set_values
unfolding decode_value
decoded_set = refl

sets-First_example :
    (set_exists world [] (string (codes "s")) null ≡ ([], answered (bool true)))
    × ((set_remove world [] (string (codes "s")) null).0 ≡ element_removal (codes "s") 77 (some 1))
unfolding is_found
sets-First_example =
    sets-First world [] (codes "s") null found_set set_values (some 1) refl refl refl (omega arith)
      (omega arith) decoded_set
      (later (string (codes "a")) (long 3 ∷ long 3 ∷ []) 0 refl (here (long 3) (long 3 ∷ []) refl))

-- Settings of which the last one that was set can be read.
abbrev read_last : ℕ × Control → Control → ℕ
read_last s cmd = s.0

found_view : find_control (codes "viewTimeout") set_controls ≡ some view_timeout
unfolding find_control
found_view = refl

get_property-set_property_example :
    get_property (λ s cmd v. (v, cmd)) read_last (5, view_timeout) (codes "viewTimeout")
    ≡ read_back view_timeout 5
unfolding set_property
get_property-set_property_example =
    get_property-set_property (λ s cmd v. (v, cmd)) read_last (λ s cmd v. refl) (0, op_timeout)
      (codes "viewTimeout") 5 view_timeout found_view
