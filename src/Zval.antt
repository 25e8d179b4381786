-- ===== src/Zval.antt =====
-- The PHP values that the extension handles, under the PHP 7 branches of the source: `IS_UNDEF`,
-- `IS_NULL` and so on are constructors. A long is its 64-bit pattern and a double is opaque. An
-- array is its buckets in order, each under a string or an integer key.
use php_couchbase.Base.{ℕ, suc, Bool, true, false, Bytes, Option, none, some}

pub data Key : Type 0 where
  str : Bytes → Key
  num : ℕ → Key

mutual
  pub data Zval : Type 0 where
    undef null : Zval
    bool : Bool → Zval
    long double : ℕ → Zval
    string : Bytes → Zval
    array : Entries → Zval
    object : ℕ → Zval

  pub data Entries : Type 0 where
    end : Entries
    entry : Key → Zval → Entries → Entries

-- php_array_count: the number of buckets.
abbrev pub count : Entries → ℕ
count end = 0
count (entry k v es) = suc (count es)

-- `Z_TYPE_P(z) == IS_STRING` and the like.
abbrev pub is_string : Zval → Bool
is_string (string s) = true
is_string _ = false

abbrev pub is_long : Zval → Bool
is_long (long n) = true
is_long _ = false

abbrev pub is_array : Zval → Bool
is_array (array es) = true
is_array _ = false

-- `Z_ISUNDEF`, and the pointer that pcbc_pp_next stores: NULL for an undefined value.
abbrev pub defined : Zval → Option Zval
defined undef = none
defined z = some z
