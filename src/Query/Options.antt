-- ===== src/Query/Options.antt =====
-- The options of a query as a map from names.
use php_couchbase.Base.{
  ◌≡◌, refl, ap, ◌∙◌, inl, inr, List, [], ◌∷◌, ◌++◌, Option, none, some, arith, Bytes, bytes_eq,
  bytes_eq_apart, bytes_eq_sound, if◌then◌else◌, Bool-cases,
}
use php_couchbase.Zval.{Zval, Entries, str, num, undef, string, end, entry}
use php_couchbase.Query.{add_assoc, add_json, add_custom}

-- The value under a name.
abbrev pub find_option : Bytes → Entries → Option Zval
find_option key end = none
find_option key (entry (str k) z es) = if bytes_eq k key then some z else find_option key es
find_option key (entry (num i) z es) = find_option key es

-- The last value that a list of settings gives a name, `old` if there is none.
abbrev pub latest_option : Bytes → List (Bytes × Zval) → Option Zval → Option Zval
latest_option key [] old = old
latest_option key ((k, z) ∷ rest) old =
    latest_option key rest (if bytes_eq k key then some z else old)

pub find_option-add_assoc :
    (key k : Bytes) (z : Zval) (es : Entries)
    → find_option key (add_assoc k z es) ≡ (if bytes_eq k key then some z else find_option key es)
unfolding add_assoc
find_option-add_assoc key k z end = refl
find_option-add_assoc key k z (entry (num i) v es) = find_option-add_assoc key k z es
find_option-add_assoc key k z (entry (str j) v es) = elim (Bool-cases (bytes_eq j k)) [
  | inl e ↦ let same : j ≡ k = bytes_eq_sound j k e in rw (e, same) (ground arith)
  | inr e ↦ elim (Bool-cases (bytes_eq j key)) [
    | inl f ↦ rw (e, f, bytes_eq_apart j k key e f) refl
    | inr f ↦ rw (e, f) (find_option-add_assoc key k z es)
  ]
]

-- The settings of a custom array, which has string keys, and of a value that JSON encodes.
abbrev pub custom_settings : Entries → List (Bytes × Zval)
custom_settings end = []
custom_settings (entry k undef es) = custom_settings es
custom_settings (entry (str k) z es) = (k, z) ∷ custom_settings es
custom_settings (entry (num i) z es) = custom_settings es

abbrev pub json_settings : Bytes → Option Bytes → List (Bytes × Zval)
json_settings name none = []
json_settings name (some text) = (name, string text) ∷ []

pub find_option-add_custom :
    (key : Bytes) (custom es : Entries)
    → find_option key (add_custom custom es)
      ≡ latest_option key (custom_settings custom) (find_option key es)
unfolding add_custom
find_option-add_custom key end es = refl
find_option-add_custom key (entry k undef custom) es = find_option-add_custom key custom es
find_option-add_custom key (entry (str k) z custom) es =
    find_option-add_custom key custom (add_assoc k z es)
    ∙ ap (latest_option key (custom_settings custom)) (find_option-add_assoc key k z es)
find_option-add_custom key (entry (num i) z custom) es = find_option-add_custom key custom es

pub find_option-add_json :
    (key name : Bytes) (text : Option Bytes) (es : Entries)
    → find_option key (add_json name text es)
      ≡ latest_option key (json_settings name text) (find_option key es)
unfolding add_json
find_option-add_json key name none es = refl
find_option-add_json key name (some text) es = find_option-add_assoc key name (string text) es

pub latest_option-append :
    (key : Bytes) (l m : List (Bytes × Zval)) (old : Option Zval)
    → latest_option key (l ++ m) old ≡ latest_option key m (latest_option key l old)
latest_option-append key [] m old = refl
latest_option-append key ((k, z) ∷ l) m old =
    latest_option-append key l m (if bytes_eq k key then some z else old)
