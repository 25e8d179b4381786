-- ===== src/Pool.antt =====
-- src/couchbase/pool.c: connections, which the processes' persistent list keeps between requests.
-- An address of a connection is its index in `conns`, the memory; `freed` marks one that was
-- released. Connstr has the connection strings, the others the theorems on the list. The functions of
-- libcouchbase are the record Client. An update of the persistent list does not fail.
pub mod Connstr
pub mod Registry
pub mod Idle
pub mod Safety
pub mod Dangling
pub mod Reach
pub mod Sweep
use php_couchbase.Base.{
  ◌-◌, ℕ, zero, suc, ◌+◌, ◌%◌, ◌^◌, Bool, true, false, List, [], ◌∷◌, ◌++◌, Option, none, some,
  Bytes, bytes_eq, get_elem?, length, ltb, ◌==◌, ◌&&◌, if◌then◌else◌,
}
use php_couchbase.Decimal.{decimal}
use php_couchbase.OpCookie.{lcb_success}
use php_couchbase.Pool.Connstr.{Url, normalize_connstr, type_bucket}

-- What the code calls of libcouchbase: a code for each call, by the instance. `create` also gives
-- the instance.
pub record Client : Type 0 where
  pub create : ℕ → Bytes → ℕ × ℕ
  pub set_logger : ℕ → ℕ
  pub set_client_string : ℕ → ℕ
  pub connect : ℕ → ℕ
  pub bootstrap_status : ℕ → ℕ
  pub bucketname : ℕ → Option Bytes
  pub lcb_einval : ℕ

-- How an attempt ends: without an instance, with one that was destroyed, or connected.
pub data Attempt : Type 0 where
  refused : ℕ → Attempt
  destroyed : ℕ → ℕ → Attempt
  connected : ℕ → Attempt

-- The calls on the instance in their order, up to the first that fails.
try_calls : ℕ → List ℕ → Attempt
try_calls conn [] = connected conn
try_calls conn (err ∷ rest) =
    let later = try_calls conn rest in if err == lcb_success then later else destroyed conn err

created : Client → ℕ × ℕ → Attempt
unfolding try_calls
created client (err, conn) =
    if err == lcb_success
    then try_calls conn (
        client.set_logger conn
        ∷ client.set_client_string conn
        ∷ client.connect conn
        ∷ client.bootstrap_status conn
        ∷ [])
    else refused err

-- pcbc_establish_connection
unfoldable pub establish : Client → ℕ → Bytes → Attempt
unfolding created
establish client type connstr = created client (client.create type connstr)

-- pcbc_connection_t; `refs` is the 32-bit pattern of an int.
pub record Connection : Type 0 where
  pub type : ℕ
  pub connstr : Bytes
  pub bucketname : Option Bytes
  pub auth_hash : Bytes
  pub lcb : ℕ
  pub refs : ℕ
  pub idle_at : ℕ
  pub freed : Bool

-- A resource of the persistent list: another extension's, or one of ours with its pointer.
pub data Resource : Type 0 where
  foreign : Resource
  couchbase : Option ℕ → Resource

pub record Pool : Type 0 where
  pub conns : List Connection
  pub persistent_list : List (Bytes × Resource)

-- pcbc_connection_addref and pcbc_connection_delref of the connection behind a pointer.
unfoldable pub addref : Connection → Connection
addref conn = record conn { refs = (conn.refs + 1) % 2 ^ 32; idle_at = 0 }

unfoldable pub delref : ℕ → Connection → Connection
delref now conn =
    let refs = (conn.refs + (2 ^ 32 - 1)) % 2 ^ 32 in
    if refs == 0 then record conn { refs = refs; idle_at = now } else record conn { refs = refs }

-- A write through a pointer.
unfoldable pub at_address : (Connection → Connection) → ℕ → List Connection → List Connection
at_address f at [] = []
at_address f zero (c ∷ cs) = f c ∷ cs
at_address f (suc at) (c ∷ cs) = c ∷ at_address f at cs

-- zend_hash_find_ptr and zend_hash_str_update_mem
unfoldable pub find_resource : Bytes → List (Bytes × Resource) → Option Resource
find_resource key [] = none
find_resource key ((k, r) ∷ rest) =
    let later = find_resource key rest in if bytes_eq k key then some r else later

unfoldable pub update_resource :
    Bytes → Resource → List (Bytes × Resource) → List (Bytes × Resource)
update_resource key res [] = (key, res) ∷ []
update_resource key res ((k, r) ∷ rest) =
    let later = update_resource key res rest in
    if bytes_eq k key then (k, res) ∷ rest else (k, r) ∷ later

pointer_of : Option Resource → Option ℕ
pointer_of (some (couchbase ptr)) = ptr
pointer_of _ = none

-- pcbc_connection_lookup
unfoldable pub lookup : Pool → Bytes → Option ℕ
unfolding find_resource pointer_of
lookup pool key = pointer_of (find_resource key pool.persistent_list)

-- pcbc_connection_cache
unfoldable pub cache : Pool → Bytes → ℕ → Pool
unfolding update_resource
cache pool key conn = record pool {
  persistent_list = update_resource key (couchbase (some conn)) pool.persistent_list;
}

unfoldable pub plist_key : ℕ → Bytes → Bytes → Bytes
plist_key type cstr auth_hash = decimal type ++ b'|' ∷ cstr ++ b'|' ∷ auth_hash

-- An error code, or the address of the connection.
pub data Got : Type 0 where
  failed : ℕ → Got
  got : ℕ → Pool → Got

module _ (url_parse : Bytes → Option Url) (client : Client) where
  new_connection : ℕ → Bytes → Bytes → ℕ → Connection
  new_connection type cstr auth_hash lcb = record {
    type = type;
    connstr = cstr;
    bucketname = if type == type_bucket then client.bucketname lcb else none;
    auth_hash = auth_hash;
    lcb = lcb;
    refs = 1;
    idle_at = 0;
    freed = false;
  }

  -- The connection is allocated at the end of the memory and put into the list.
  register : Pool → Bytes → ℕ → Bytes → Bytes → Attempt → Got
  unfolding cache new_connection
  register pool key type cstr auth_hash (refused err) = failed err
  register pool key type cstr auth_hash (destroyed conn err) = failed err
  register pool key type cstr auth_hash (connected lcb) = got (length pool.conns) (
      cache (record pool { conns = pool.conns ++ new_connection type cstr auth_hash lcb ∷ [] }) key
        (length pool.conns))

  get_by_key : Pool → Bytes → ℕ → Bytes → Bytes → Option ℕ → Got
  unfolding register establish addref at_address
  get_by_key pool key type cstr auth_hash (some at) =
      got at (record pool { conns = at_address addref at pool.conns })
  get_by_key pool key type cstr auth_hash none =
      register pool key type cstr auth_hash (establish client type cstr)

  get_normalized : Pool → ℕ → Bytes → Option Bytes → Got
  unfolding get_by_key lookup plist_key
  get_normalized pool type auth_hash none = failed client.lcb_einval
  get_normalized pool type auth_hash (some cstr) =
      get_by_key pool (plist_key type cstr auth_hash) type cstr auth_hash
        (lookup pool (plist_key type cstr auth_hash))

  -- pcbc_connection_get
  unfoldable pub connection_get : Pool → ℕ → Bytes → Option Bytes → Bytes → Got
  unfolding get_normalized normalize_connstr
  connection_get pool type connstr bucketname auth_hash =
      get_normalized pool type auth_hash (normalize_connstr url_parse type connstr bucketname)

-- `refs > 0` of an int.
abbrev pub is_positive : ℕ → Bool
is_positive refs = ltb 0 refs && ltb refs (2 ^ 31)

-- The tests of pcbc_destroy_idle_connections: the connection was abandoned more than 60 seconds ago.
unfoldable pub is_idle : ℕ → Connection → Bool
is_idle now conn =
    if is_positive conn.refs
    then false
    else (if conn.idle_at == 0 then false else ltb (conn.idle_at + 60) now)

-- pcbc_destroy_connection_resource of a pointer that is not NULL.
release : Connection → Connection
release conn = record conn { freed = true }

destroy_if : Bool → ℕ → List Connection → List Connection × Resource
unfolding release at_address
destroy_if false at conns = (conns, couchbase (some at))
destroy_if true at conns = (at_address release at conns, couchbase none)

-- pcbc_destroy_idle_connections of one resource.
unfoldable pub destroy_idle : ℕ → List Connection → Resource → List Connection × Resource
unfolding destroy_if is_idle
destroy_idle now conns (couchbase (some at)) = elim (get_elem? conns at) [
  | none ↦ (conns, couchbase (some at))
  | some conn ↦ destroy_if (is_idle now conn) at conns
]
destroy_idle now conns res = (conns, res)

cleanup_loop :
    ℕ → List Connection → List (Bytes × Resource) → List Connection × List (Bytes × Resource)
unfolding destroy_idle
cleanup_loop now conns [] = (conns, [])
cleanup_loop now conns ((key, res) ∷ rest) =
    let (cs, r) = destroy_idle now conns res in
    let (last, rs) = cleanup_loop now cs rest in (last, (key, r) ∷ rs)

-- pcbc_connection_cleanup
unfoldable pub cleanup : ℕ → Pool → Pool
unfolding cleanup_loop
cleanup now pool =
    let (cs, rs) = cleanup_loop now pool.conns pool.persistent_list in
    record { conns = cs; persistent_list = rs }
