-- ===== src/Subdoc/LookupIn/Paths.antt =====
-- lookup_in_builder.c: the specifications that retrieveIn makes of its arguments.
use php_couchbase.Base.{
  ℕ, suc, ◌+◌, ◌%◌, ◌^◌, ◌≡◌, refl, ap, sym, ◌∙◌, List, [], ◌∷◌, ◌++◌, map, none, arith, Bytes,
  length, length-append, append-nil, append_assoc,
}
use php_couchbase.Zval.{Zval, string}
use php_couchbase.Subdoc.{SdSpec, SubdocEnv, sd_get, no_flags, options_to_flags}
use php_couchbase.Subdoc.LookupIn.{LookupInBuilder, init, add_paths, get, push_spec, path_spec}

-- The paths: the arguments that are strings.
abbrev pub paths : List Zval → List Bytes
paths [] = []
paths (string path ∷ args) = path ∷ paths args
paths (z ∷ args) = paths args

abbrev pub get_spec : Bytes → SdSpec
get_spec path = record { sdcmd = sd_get; options = no_flags; path = path; value = none }

-- A builder with these specifications more.
abbrev pub with_specs : LookupInBuilder → List SdSpec → LookupInBuilder
with_specs b specs = record {
  id = b.id;
  nspecs = (b.nspecs + length specs) % 2 ^ 32;
  specs = b.specs ++ specs;
}

abbrev pub builder_with : Bytes → ℕ → List SdSpec → LookupInBuilder
builder_with id nspecs specs = record { id = id; nspecs = nspecs; specs = specs }

same_builder :
    (id : Bytes) (m n : ℕ) (ss ts : List SdSpec)
    → m ≡ n
    → ss ≡ ts
    → builder_with id m ss ≡ builder_with id n ts
same_builder id m n ss ts p q = ap (λ x. builder_with id x ss) p ∙ ap (λ x. builder_with id n x) q

with_specs-append :
    (b : LookupInBuilder) (ss ts : List SdSpec)
    → with_specs (with_specs b ss) ts ≡ with_specs b (ss ++ ts)
with_specs-append b ss ts =
    same_builder b.id _ _ _ _ (omega (arith, length-append ss ts)) (append_assoc b.specs ss ts)

length-map : (ps : List Bytes) → length (map get_spec ps) ≡ length ps
length-map [] = refl
length-map (p ∷ ps) = ap suc (length-map ps)

module _ (env : SubdocEnv) where
  pub get-with_specs :
      (b : LookupInBuilder) (path : Bytes) → get env b path none ≡ with_specs b (get_spec path ∷ [])
  unfolding get push_spec path_spec options_to_flags
  get-with_specs b path = refl

  add_paths-with_specs :
      (b : LookupInBuilder) (args : List Zval)
      → b.nspecs % 2 ^ 32 ≡ b.nspecs
      → add_paths env b args ≡ with_specs b (map get_spec (paths args))
  unfolding add_paths
  add_paths-with_specs b [] h =
      same_builder b.id _ _ _ _ (omega (arith, h)) (sym (append-nil b.specs))
  add_paths-with_specs b (string path ∷ args) h =
      ap (λ x. add_paths env x args) (get-with_specs b path)
      ∙ add_paths-with_specs (with_specs b (get_spec path ∷ [])) args (omega arith)
      ∙ with_specs-append b (get_spec path ∷ []) (map get_spec (paths args))
  add_paths-with_specs b (z ∷ args) h = add_paths-with_specs b args h

  -- The specifications of a new builder are those of the paths, in their order.
  pub init-paths :
      (id : Bytes) (args : List Zval)
      → init env id args
        ≡ builder_with id (length (paths args) % 2 ^ 32) (map get_spec (paths args))
  unfolding init
  init-paths id args =
      add_paths-with_specs (builder_with id 0 []) args (omega arith)
      ∙ same_builder id _ _ _ _ (omega (arith, length-map (paths args))) refl
