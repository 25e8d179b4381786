-- ===== src/Query/View/Calls.antt =====
-- view_query.c: the options that a chain of calls leaves.
use php_couchbase.Base.{
  ℕ, ◌≡◌, refl, ap, sym, ◌∙◌, Bool, List, [], ◌∷◌, ◌++◌, Option, none, some, Bytes, codes, bytes_eq,
  if◌then◌else◌,
}
use php_couchbase.Zval.{Zval, Entries, string, long}
use php_couchbase.Query.{QueryEnv, stale_of}
use php_couchbase.Query.Options.{
  find_option, latest_option, custom_settings, json_settings, find_option-add_assoc,
  find_option-add_custom, find_option-add_json, latest_option-append,
}
use php_couchbase.Query.View.{
  ViewQuery, init, add_option, bool_text, limit, skip, consistency, descending_of, order,
  include_documents, reduce, group, group_level, id_range, custom, key, set_keys, range,
  add_or_throw, add_encoded,
}

-- A call of a method.
pub data ViewCall : Type 0 where
  limit_call skip_call consistency_call order_call group_level_call : ℕ → ViewCall
  include_documents_call reduce_call group_call : Bool → ViewCall
  id_range_call : Bytes → Bytes → ViewCall
  custom_call : Entries → ViewCall
  key_call keys_call : Zval → ViewCall
  range_call : Zval → Zval → Bool → ViewCall

module _ (env : QueryEnv) where
  abbrev pub view_call : ViewQuery → ViewCall → ViewQuery
  view_call q (limit_call n) = limit n q
  view_call q (skip_call n) = skip n q
  view_call q (consistency_call n) = (consistency n q).0
  view_call q (order_call n) = (order n q).0
  view_call q (group_level_call n) = group_level n q
  view_call q (include_documents_call b) = include_documents b q
  view_call q (reduce_call b) = reduce b q
  view_call q (group_call b) = group b q
  view_call q (id_range_call first last) = id_range first last q
  view_call q (custom_call es) = custom es q
  view_call q (key_call z) = key env z q
  view_call q (keys_call z) = set_keys env z q
  view_call q (range_call first last inclusive) = range env first last inclusive q

  abbrev pub view_calls : ViewQuery → List ViewCall → ViewQuery
  view_calls q [] = q
  view_calls q (c ∷ cs) = view_calls (view_call q c) cs

  -- The names that a call sets, with their values. A text that is missing sets none.
  abbrev pub settings_of : ViewCall → List (Bytes × Zval)
  settings_of (limit_call n) = (codes "limit", long n) ∷ []
  settings_of (skip_call n) = (codes "skip", long n) ∷ []
  settings_of (consistency_call n) = json_settings (codes "stale") (stale_of n)
  settings_of (order_call n) = json_settings (codes "descending") (descending_of n)
  settings_of (group_level_call n) = (codes "group_level", long n) ∷ []
  settings_of (include_documents_call b) = []
  settings_of (reduce_call b) = (codes "reduce", bool_text b) ∷ []
  settings_of (group_call b) = (codes "group", bool_text b) ∷ []
  settings_of (id_range_call first last) =
      (codes "startkey_docid", string first) ∷ (codes "endkey_docid", string last) ∷ []
  settings_of (custom_call es) = custom_settings es
  settings_of (key_call z) = json_settings (codes "key") (env.json_encode z)
  settings_of (keys_call z) = []
  settings_of (range_call first last inclusive) =
      (codes "inclusive_end", bool_text inclusive)
      ∷ (json_settings (codes "startkey") (env.json_encode first)
          ++ json_settings (codes "endkey") (env.json_encode last))

  abbrev pub call_settings : List ViewCall → List (Bytes × Zval)
  call_settings [] = []
  call_settings (c ∷ cs) = settings_of c ++ call_settings cs

  find_option-add_or_throw :
      (name k : Bytes) (text : Option Bytes) (q : ViewQuery)
      → find_option name (add_or_throw k text q).0.options
        ≡ latest_option name (json_settings k text) (find_option name q.options)
  unfolding add_or_throw add_option
  find_option-add_or_throw name k none q = refl
  find_option-add_or_throw name k (some text) q =
      find_option-add_assoc name k (string text) q.options

  find_option-view_call :
      (name : Bytes) (q : ViewQuery) (c : ViewCall)
      → find_option name (view_call q c).options
        ≡ latest_option name (settings_of c) (find_option name q.options)
  unfolding limit skip consistency order include_documents reduce group group_level id_range custom
      key set_keys range add_option add_encoded
  find_option-view_call name q (limit_call n) = find_option-add_assoc name _ _ q.options
  find_option-view_call name q (skip_call n) = find_option-add_assoc name _ _ q.options
  find_option-view_call name q (consistency_call n) = find_option-add_or_throw name _ (stale_of n) q
  find_option-view_call name q (order_call n) = find_option-add_or_throw name _ (descending_of n) q
  find_option-view_call name q (group_level_call n) = find_option-add_assoc name _ _ q.options
  find_option-view_call name q (include_documents_call b) = refl
  find_option-view_call name q (reduce_call b) = find_option-add_assoc name _ _ q.options
  find_option-view_call name q (group_call b) = find_option-add_assoc name _ _ q.options
  find_option-view_call name q (id_range_call first last) =
      find_option-add_assoc name _ _ _
      ∙ ap (λ x. if bytes_eq (codes "endkey_docid") name then some (string last) else x)
          (find_option-add_assoc name _ _ q.options)
  find_option-view_call name q (custom_call es) = find_option-add_custom name es q.options
  find_option-view_call name q (key_call z) =
      find_option-add_json name (codes "key") (env.json_encode z) q.options
  find_option-view_call name q (keys_call z) = refl
  find_option-view_call name q (range_call first last inclusive) =
      find_option-add_json name _ (env.json_encode last) _
      ∙ ap (latest_option name (json_settings (codes "endkey") (env.json_encode last))) (
          find_option-add_json name _ (env.json_encode first) _
          ∙ ap (latest_option name (json_settings (codes "startkey") (env.json_encode first)))
              (find_option-add_assoc name _ _ q.options))
      ∙ sym (
          latest_option-append name (json_settings (codes "startkey") (env.json_encode first))
            (json_settings (codes "endkey") (env.json_encode last)) _)

  find_option-from :
      (name : Bytes) (q : ViewQuery) (cs : List ViewCall)
      → find_option name (view_calls q cs).options
        ≡ latest_option name (call_settings cs) (find_option name q.options)
  find_option-from name q [] = refl
  find_option-from name q (c ∷ cs) =
      find_option-from name (view_call q c) cs
      ∙ ap (latest_option name (call_settings cs)) (find_option-view_call name q c)
      ∙ sym (latest_option-append name (settings_of c) (call_settings cs) _)

  -- Under every name, the options of a view query hold what the last of the calls that set the name
  -- gave it, and nothing if no call did. A call that throws, or whose value JSON cannot encode, sets
  -- no name.
  pub find_option-view_calls :
      (name design_document view_name : Bytes) (cs : List ViewCall)
      → find_option name (view_calls (init design_document view_name) cs).options
        ≡ latest_option name (call_settings cs) none
  unfolding init
  find_option-view_calls name design_document view_name cs =
      find_option-from name (init design_document view_name) cs
