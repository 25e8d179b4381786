-- ===== src/Structures/Retrieve.antt =====
-- bucket.c: the command of retrieveIn.
use php_couchbase.Base.{
  ◌%◌, ◌^◌, ◌<◌, ◌≡◌, refl, true, List, [], ◌∷◌, ◌++◌, map, Bytes, arith, length, append-nil, sym,
  ◌==◌, Bool-cases, inl, inr,
}
use php_couchbase.Zval.{Zval}
use php_couchbase.Subdoc.{SubdocCmd, SubdocEnv}
use php_couchbase.Subdoc.LookupIn.Paths.{paths, get_spec, builder_with, init-paths}
use php_couchbase.Subdoc.Request.{lookup_cmd, subdoc_request}
use php_couchbase.Structures.{retrieve_in}

-- One lookup of these paths, if there is one.
abbrev pub lookup_of : Bytes → List Bytes → List SubdocCmd
lookup_of id [] = []
lookup_of id (p ∷ ps) = record { key = id; cas = 0; specs = map get_spec (p ∷ ps) } ∷ []

module _ (env : SubdocEnv) where
  request_sends :
      (sent : List SubdocCmd) (id : Bytes) (ps : List Bytes)
      → length ps < 2 ^ 32
      → (subdoc_request env true sent
          (lookup_cmd (builder_with id (length ps % 2 ^ 32) (map get_spec ps)))).0
        ≡ sent ++ lookup_of id ps
  unfolding subdoc_request lookup_cmd
  request_sends sent id [] h = sym (append-nil sent)
  request_sends sent id (p ∷ ps) h = elim (Bool-cases (length (p ∷ ps) % 2 ^ 32 == 0)) [
    | inl e ↦ absurd (ground arith)
    | inr e ↦ rw e refl
  ]

  -- retrieveIn sends one command behind those before it, with a lookup of every argument that is a
  -- string, in their order; it sends none if no argument is a string. The number of strings has to
  -- be below 2^32.
  pub retrieve_in-paths :
      (sent : List SubdocCmd) (id : Bytes) (args : List Zval)
      → length (paths args) < 2 ^ 32
      → (retrieve_in env sent id args).0 ≡ sent ++ lookup_of id (paths args)
  unfolding retrieve_in
  retrieve_in-paths sent id [] h = sym (append-nil sent)
  retrieve_in-paths sent id (z ∷ args) h =
      rw (init-paths env id (z ∷ args)) (request_sends sent id (paths (z ∷ args)) h)
