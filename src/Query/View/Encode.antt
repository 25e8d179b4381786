-- ===== src/Query/View/Encode.antt =====
-- view_query.c: the texts of an encoded query.
use php_couchbase.Base.{◌≡◌, refl, [], ◌∷◌, Option, none, some, Bytes, codes, bytes_eq}
use php_couchbase.MutationToken.{estrdup}
use php_couchbase.Zval.{Zval, Entries, string, str, end, entry}
use php_couchbase.Query.{QueryEnv, add_assoc, encoded_query, optstr}
use php_couchbase.Query.Options.{find_option}
use php_couchbase.Query.View.{ViewQuery, postdata, encode_view}

-- A text as a value, and one that is not empty.
abbrev pub text_value : Option Bytes → Option Zval
text_value none = none
text_value (some s) = some (string s)

abbrev pub unless_empty : Option Bytes → Option Bytes
unless_empty none = none
unless_empty (some []) = none
unless_empty (some (c ∷ s)) = some (c ∷ s)

-- An array has the texts that a query gives the server.
pub record HasTexts (es : Entries) (q : ViewQuery) (options : Option Bytes) : Type 0 where
  pub ddoc : find_option (codes "ddoc") es ≡ some (string (estrdup q.design_document))
  pub view : find_option (codes "view") es ≡ some (string (estrdup q.view_name))
  pub optstr : find_option (codes "optstr") es ≡ text_value (unless_empty options)
  pub postdata : find_option (codes "postdata") es ≡ text_value q.keys

module _ (env : QueryEnv) where
  texts-HasTexts :
      (q : ViewQuery) (options keys : Option Bytes)
      → HasTexts
          (postdata env keys (
            optstr options (
              entry
                (str (codes "ddoc"))
                (string (estrdup q.design_document))
                (entry (str (codes "view")) (string (estrdup q.view_name)) end))))
          (record q { keys = keys })
          options
  unfolding postdata optstr add_assoc bytes_eq
  texts-HasTexts q none none = record { ddoc = refl; view = refl; optstr = refl; postdata = refl }
  texts-HasTexts q (some []) none = record {
    ddoc = refl;
    view = refl;
    optstr = refl;
    postdata = refl;
  }
  texts-HasTexts q (some (c ∷ s)) none = record {
    ddoc = refl;
    view = refl;
    optstr = refl;
    postdata = refl;
  }
  texts-HasTexts q none (some keys) = record {
    ddoc = refl;
    view = refl;
    optstr = refl;
    postdata = refl;
  }
  texts-HasTexts q (some []) (some keys) = record {
    ddoc = refl;
    view = refl;
    optstr = refl;
    postdata = refl;
  }
  texts-HasTexts q (some (c ∷ s)) (some keys) = record {
    ddoc = refl;
    view = refl;
    optstr = refl;
    postdata = refl;
  }

  pub encode_view-HasTexts :
      (q : ViewQuery) → HasTexts (encode_view env q) q (env.url_encode q.options)
  unfolding encode_view encoded_query
  encode_view-HasTexts q = texts-HasTexts q (env.url_encode q.options) q.keys
