-- ===== src/Bucket/Options.antt =====
-- The options of the bucket operations: the PCBC_CHECK_ZVAL macros of couchbase.h, and the fields
-- of commands that come from optional values.
use php_couchbase.Base.{ℕ, ◌%◌, ◌^◌, Bool, true, Option, none, some, Bytes}
use php_couchbase.Zval.{Zval, long, string, is_long, is_string}
use php_couchbase.Document.{cas_decode}

-- PCBC_CHECK_ZVAL_LONG and PCBC_CHECK_ZVAL_STRING pass.
abbrev pub check_long : Option Zval → Bool
check_long none = true
check_long (some z) = is_long z

abbrev pub check_string : Option Zval → Bool
check_string none = true
check_string (some z) = is_string z

-- `if (z) field = Z_LVAL_P(z)`, for a field of `w` values that was cleared before.
abbrev pub lval_or : ℕ → Option Zval → ℕ → ℕ
lval_or w (some (long n)) d = n % w
lval_or w _ d = d

-- `if (z) LCB_KREQ_SIMPLE(&cmd._hashkey, …)`
abbrev pub hashkey_of : Option Zval → Option Bytes
hashkey_of (some (string s)) = some s
hashkey_of _ = none

-- `if (z) cmd.cas = pcbc_cas_decode(z)`
abbrev pub cas_of : Option Zval → ℕ
cas_of none = 0
cas_of (some z) = cas_decode z

abbrev pub u32 : ℕ
u32 = 2 ^ 32

abbrev pub byte : ℕ
byte = 2 ^ 8

abbrev pub u64 : ℕ
u64 = 2 ^ 64
