-- ===== src/Examples/Managers.antt =====
-- The managers and the requests over HTTP.
use php_couchbase.Base.{◌≡◌, refl, true, false, List, [], ◌∷◌, none, some, Bytes, codes, arith}
use php_couchbase.Zval.{null, string, array, str, end, entry}
use php_couchbase.Http.{CmdHttp, RespHttp, HttpEnv, lcb, pcbc, http_request, content_type_form, get}
use php_couchbase.Http.Replies.{http_request-http_reply}
use php_couchbase.MutationToken.{estrdup}
use php_couchbase.Managers.{done, value}
use php_couchbase.Managers.Designs.{design_cmd}
use php_couchbase.Managers.Users.{user_construct}
use php_couchbase.Managers.Users.Roles.{role_calls, split, IsRole, split-role_calls}
use php_couchbase.Managers.Clusters.{remove_user}
use php_couchbase.Managers.Clusters.Removal.{removal, remove_user-said}

-- A server that gives each request these responses.
abbrev server : List RespHttp → HttpEnv
server resps = record {
  submit = λ sent cmd. 0;
  responses = λ sent cmd. resps;
  json_decode = λ s. some (array (entry (str (codes "error")) (string (codes "not_found")) end));
  json_encode = λ z. some (codes "1");
  url_encode = λ es. none;
  array_merge = λ a b. a;
  array_exists = λ es key. true;
  array_fetch_string = λ es key. none;
  lcb_error = 10;
  lcb_einval = 7;
  key_eexists = 12;
}

abbrev ok_with : Bytes → RespHttp
ok_with body = record { rc = 0; body = body }

abbrev asked : CmdHttp
asked = design_cmd get content_type_form (codes "d") none

http_request-http_reply_example :
    http_request (server (ok_with (codes "a") ∷ ok_with (codes "b") ∷ [])) [] asked false
    ≡ record { sent = asked ∷ []; thrown = lcb 10 ∷ []; ret = some (string (codes "a")) }
http_request-http_reply_example =
    http_request-http_reply (server (ok_with (codes "a") ∷ ok_with (codes "b") ∷ [])) false [] asked
      refl

abbrev admin_role : IsRole (codes "ro", codes "b")
admin_role = record {
  named = λ e. cc;
  plain_name = (λ e. absurd (omega arith), (λ e. absurd (omega arith), tt));
  plain_bucket = (λ e. absurd (omega arith), tt);
}

split-role_calls_example :
    split (role_calls user_construct ((codes "ro", codes "b") ∷ (codes "ro", codes "b") ∷ [])).roles
    ≡ codes "ro[b]" ∷ codes "ro[b]" ∷ []
split-role_calls_example =
    split-role_calls ((codes "ro", codes "b") ∷ (codes "ro", codes "b") ∷ [])
      (admin_role, (admin_role, tt))

remove_user-said_example :
    remove_user (server (ok_with (codes "no") ∷ [])) [] (codes "u") 1
    ≡ done
        (removal (codes "/settings/rbac/users/local") (codes "u") ∷ [])
        (pcbc (codes "no") 7 ∷ [])
        (value null)
unfolding estrdup
remove_user-said_example =
    remove_user-said (server (ok_with (codes "no") ∷ [])) [] (codes "u") 1 refl
      ((λ e. absurd (omega arith)), tt)
