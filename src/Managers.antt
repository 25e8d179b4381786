-- ===== src/Managers.antt =====
-- The managers of src/couchbase: what they send over HTTP and what they make of the replies. Designs is
-- bucket_manager.c but for its indexes, Indexes those with bucket_manager/*.c and n1ql_index.c, Clusters
-- is cluster_manager.c, Users is cluster_manager/user_settings.c.
pub mod Designs
pub mod Users
pub mod Clusters
pub mod Indexes
use php_couchbase.Base.{
  ℕ, zero, suc, ◌-◌, Bool, List, [], ◌∷◌, ◌++◌, Option, none, some, Bytes, codes, length,
}
use php_couchbase.Zval.{Zval, null}
use php_couchbase.MutationToken.{estrdup}
use php_couchbase.Http.{
  HttpType, HttpMethod, CmdHttp, Thrown, Reply, content_type_form, management_type, get, post,
}

-- What a method leaves as its return value: a value, or one whose memory was released.
pub data Left : Type 0 where
  value : Zval → Left
  freed : Left

-- How a method ends, after the commands that it sent: it takes a value for an array or a string that is
-- none, or it has thrown exceptions and leaves a return value.
pub data Outcome : Type 0 where
  undefined : List CmdHttp → Outcome
  done : List CmdHttp → List Thrown → Left → Outcome

-- The return value is null until it is written.
abbrev pub or_null : Option Zval → Zval
or_null none = null
or_null (some z) = z

unfoldable pub plain_outcome : Reply → Outcome
plain_outcome r = done r.sent r.thrown (value (or_null r.ret))

spaces : ℕ → Bytes
spaces zero = []
spaces (suc n) = b' ' ∷ spaces n

-- `%*s` with the length of a text and the text: what follows a NUL is left out, and spaces stand
-- before the rest in its place.
unfoldable pub padded : Bytes → Bytes
unfolding spaces estrdup
padded name = spaces (length name - length (estrdup name)) ++ estrdup name

-- A command of the management service with a form.
abbrev pub management : HttpMethod → Bytes → Option Bytes → CmdHttp
management method path body = record {
  type = management_type;
  method = method;
  path = some path;
  content_type = content_type_form;
  body = body;
}
