-- ===== src/Timeouts.antt =====
-- bucket.c: Bucket::__set and Bucket::__get, the timeouts of a bucket, with a libcouchbase that has
-- LCB_CNTL_CONFIG_POLL_INTERVAL.
pub mod Names
use php_couchbase.Base.{
  ℕ, ◌%◌, ◌^◌, Bool, true, false, List, [], ◌∷◌, Option, none, some, Bytes, codes, ◌==◌,
  if◌then◌else◌,
}
use php_couchbase.Zval.{Zval, null, long}

-- LCB_CNTL_*
pub data Control : Type 0 where
  op_timeout view_timeout n1ql_timeout durability_interval durability_timeout : Control
  http_timeout configuration_timeout confdelay_thresh config_node_timeout : Control
  htconfig_idle_timeout config_poll_interval : Control

-- `strncmp(name, text, name_len) == 0`: a NUL in the name ends the comparison with the text.
unfoldable pub names : Bytes → Bytes → Bool
names [] text = true
names (c ∷ name) [] = c == 0
names (c ∷ name) (d ∷ text) = let rest = names name text in if c == d then rest else false

-- The chain of tests.
unfoldable pub find_control : Bytes → List (Bytes × Control) → Option Control
unfolding names
find_control name [] = none
find_control name ((text, cmd) ∷ rest) =
    let later = find_control name rest in if names name text then some cmd else later

abbrev pub first_controls : List (Bytes × Control)
first_controls = (codes "operationTimeout", op_timeout) ∷ (codes "viewTimeout", view_timeout) ∷ []

abbrev pub last_controls : List (Bytes × Control)
last_controls =
    (codes "durabilityInterval", durability_interval)
    ∷ (codes "durabilityTimeout", durability_timeout)
    ∷ (codes "httpTimeout", http_timeout)
    ∷ (codes "configTimeout", configuration_timeout)
    ∷ (codes "configDelay", confdelay_thresh)
    ∷ (codes "configNodeTimeout", config_node_timeout)
    ∷ (codes "htconfigIdleTimeout", htconfig_idle_timeout)
    ∷ (codes "configPollInterval", config_poll_interval)
    ∷ []

-- The names that __set tests, and those that __get tests.
abbrev pub set_controls : List (Bytes × Control)
set_controls =
    (codes "operationTimeout", op_timeout)
    ∷ (codes "viewTimeout", view_timeout)
    ∷ (codes "n1qlTimeout", n1ql_timeout)
    ∷ last_controls

abbrev pub get_controls : List (Bytes × Control)
get_controls =
    (codes "operationTimeout", op_timeout) ∷ (codes "viewTimeout", view_timeout) ∷ last_controls

-- lcb_cntl, on the settings of an instance.
module _ {S : Type 0} (cntl_set : S → Control → ℕ → S) (cntl_get : S → Control → ℕ) where
  set_control : S → ℕ → Option Control → S × Zval
  set_control s val none = (s, null)
  set_control s val (some cmd) = (cntl_set s cmd (val % 2 ^ 32), long val)

  -- Bucket::__set
  unfoldable pub set_property : S → Bytes → ℕ → S × Zval
  unfolding set_control find_control
  set_property s name val = set_control s val (find_control name set_controls)

  get_control : S → Option Control → Zval
  get_control s none = null
  get_control s (some cmd) = long (cntl_get s cmd)

  -- Bucket::__get
  unfoldable pub get_property : S → Bytes → Zval
  unfolding get_control find_control
  get_property s name = get_control s (find_control name get_controls)
