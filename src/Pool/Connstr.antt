-- ===== src/Pool/Connstr.antt =====
-- pool.c: the connection string under which a connection is kept. php_url_parse belongs to the
-- engine and is the parameter `url_parse`.
use php_couchbase.Base.{
  ℕ, Bool, true, false, [], ◌∷◌, ◌++◌, Option, none, some, Bytes, codes, ◌==◌, ◌&&◌, not,
  if◌then◌else◌,
}
use php_couchbase.Decimal.{decimal}

-- php_url, with the fields that the code reads.
pub record Url : Type 0 where
  pub scheme : Option Bytes
  pub host : Option Bytes
  pub port : ℕ
  pub path : Option Bytes
  pub query : Option Bytes

-- lcb_type_t: LCB_TYPE_BUCKET and LCB_TYPE_CLUSTER.
abbrev pub type_bucket : ℕ
type_bucket = 0

abbrev pub type_cluster : ℕ
type_cluster = 1

-- A string that is neither NULL nor empty.
abbrev pub given : Option Bytes → Bool
given none = false
given (some []) = false
given (some (c ∷ s)) = true

abbrev scheme_part : Option Bytes → Bytes
scheme_part none = []
scheme_part (some s) = s ++ codes "://"

abbrev pub or_empty : Option Bytes → Bytes
or_empty none = []
or_empty (some s) = s

abbrev port_part : ℕ → Bytes
port_part port = if port == 0 then [] else b':' ∷ decimal port

abbrev query_part : Option Bytes → Bytes
query_part none = []
query_part (some q) = b'?' ∷ q

-- The string that both branches build, with `middle` between the port and the query.
unfoldable pub rebuild : Url → Bytes → Bytes
rebuild url middle =
    scheme_part url.scheme
    ++ or_empty url.host
    ++ port_part url.port
    ++ middle
    ++ query_part url.query

-- The `switch` on the type.
unfoldable pub rewrite_connstr : ℕ → Url → Bytes → Option Bytes → Bytes
unfolding rebuild
rewrite_connstr type url connstr bucketname =
    if type == type_bucket
    then (if given bucketname then rebuild url (b'/' ∷ or_empty bucketname) else connstr)
    else (if given url.path then rebuild url [] else connstr)

abbrev is_none : Option Bytes → Bool
is_none none = true
is_none (some s) = false

module _ (url_parse : Bytes → Option Url) where
  -- A string without a scheme and a host is parsed again behind `couchbase://`.
  with_schema : Bytes → Url → Option (Bytes × Url)
  with_schema connstr url =
      let prefixed = codes "couchbase://" ++ connstr in
      if is_none url.scheme && is_none url.host
      then (elim (url_parse prefixed) [ none ↦ none | some u ↦ some (prefixed, u) ])
      else some (connstr, url)

  -- pcbc_normalize_connstr: `none` is LCB_EINVAL.
  unfoldable pub normalize_connstr : ℕ → Bytes → Option Bytes → Option Bytes
  unfolding with_schema rewrite_connstr
  normalize_connstr type connstr bucketname =
      if not (type == type_bucket) && not (type == type_cluster)
      then none
      else (elim (url_parse connstr) [
        | none ↦ none
        | some url ↦ elim (with_schema connstr url) [
          | none ↦ none
          | some (c, u) ↦ some (rewrite_connstr type u c bucketname)
        ]
      ])
