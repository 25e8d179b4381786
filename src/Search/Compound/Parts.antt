-- ===== src/Search/Compound/Parts.antt =====
-- boolean_query.c, conjunction_query.c and disjunction_query.c: the parts that a chain of calls leaves.
use php_couchbase.Base.{
  ℕ, ◌≡◌, refl, sym, ap, ◌∙◌, inl, inr, Bool, false, List, [], ◌∷◌, ◌++◌, Option, none, some,
  append_assoc, append-nil, if◌then◌else◌, Bool-cases,
}
use php_couchbase.Zval.{Zval, undef, null, bool, long, double, string, array, object}
use php_couchbase.Search.Compound.{
  add_parts, BooleanQuery, compound_init, compound_boost, set_must, set_must_not, set_should,
  ConjunctionQuery, conjunction_init, conjunction_boost, every, DisjunctionQuery, disjunction_init,
  disjunction_boost, disjunction_min, either,
}

-- A call of a method of each query.
pub data BooleanCall : Type 0 where
  must_call must_not_call should_call : List Zval → BooleanCall
  boolean_boost_call : ℕ → BooleanCall

pub data ListCall : Type 0 where
  list_call : List Zval → ListCall
  list_boost_call list_min_call : ℕ → ListCall

module _ (is_part : ℕ → Bool) where
  -- A value is a part of a query.
  abbrev pub is_query : Zval → Bool
  is_query (object o) = is_part o
  is_query _ = false

  abbrev pub parts_of : List Zval → List Zval
  parts_of [] = []
  parts_of (z ∷ args) = if is_query z then z ∷ parts_of args else parts_of args

  skipped : (args queries : List Zval) → add_parts is_part args queries ≡ queries ++ parts_of args
  unfolding add_parts
  skipped [] queries = sym (append-nil queries)
  skipped (object o ∷ args) queries = elim (Bool-cases (is_part o)) [
    | inl e ↦
        rw (e, skipped args (queries ++ object o ∷ []))
          (append_assoc queries (object o ∷ []) (parts_of args))
    | inr e ↦ rw e (skipped args queries)
  ]
  skipped (undef ∷ args) queries = skipped args queries
  skipped (null ∷ args) queries = skipped args queries
  skipped (bool b ∷ args) queries = skipped args queries
  skipped (long n ∷ args) queries = skipped args queries
  skipped (double d ∷ args) queries = skipped args queries
  skipped (string s ∷ args) queries = skipped args queries
  skipped (array es ∷ args) queries = skipped args queries

  parts_of-append : (l m : List Zval) → parts_of (l ++ m) ≡ parts_of l ++ parts_of m
  parts_of-append [] m = refl
  parts_of-append (z ∷ l) m = elim (Bool-cases (is_query z)) [
    | inl e ↦ rw (e, parts_of-append l m) refl
    | inr e ↦ rw e (parts_of-append l m)
  ]

  -- All the arguments of a chain.
  abbrev pub arguments : List ListCall → List Zval
  arguments [] = []
  arguments (list_call args ∷ cs) = args ++ arguments cs
  arguments (c ∷ cs) = arguments cs

  abbrev conjunction_call : ConjunctionQuery → ListCall → ConjunctionQuery
  conjunction_call q (list_call args) = every is_part args q
  conjunction_call q (list_boost_call boost) = conjunction_boost boost q
  conjunction_call q (list_min_call n) = q

  abbrev pub conjunction_calls : ConjunctionQuery → List ListCall → ConjunctionQuery
  conjunction_calls q [] = q
  conjunction_calls q (c ∷ cs) = conjunction_calls (conjunction_call q c) cs

  abbrev disjunction_call : DisjunctionQuery → ListCall → DisjunctionQuery
  disjunction_call q (list_call args) = either is_part args q
  disjunction_call q (list_boost_call boost) = disjunction_boost boost q
  disjunction_call q (list_min_call n) = disjunction_min n q

  abbrev pub disjunction_calls : DisjunctionQuery → List ListCall → DisjunctionQuery
  disjunction_calls q [] = q
  disjunction_calls q (c ∷ cs) = disjunction_calls (disjunction_call q c) cs

  abbrev boolean_call : BooleanQuery → BooleanCall → BooleanQuery
  boolean_call q (must_call args) = set_must is_part args q
  boolean_call q (must_not_call args) = set_must_not is_part args q
  boolean_call q (should_call args) = set_should is_part args q
  boolean_call q (boolean_boost_call boost) = compound_boost boost q

  abbrev pub boolean_calls : BooleanQuery → List BooleanCall → BooleanQuery
  boolean_calls q [] = q
  boolean_calls q (c ∷ cs) = boolean_calls (boolean_call q c) cs

  -- The parts that the last call of `must` names.
  abbrev pub last_must : List BooleanCall → Option (List Zval) → Option (List Zval)
  last_must [] old = old
  last_must (must_call args ∷ cs) old = last_must cs (some (parts_of args))
  last_must (c ∷ cs) old = last_must cs old

  more_parts :
      (args rest queries : List Zval)
      → add_parts is_part args queries ++ parts_of rest ≡ queries ++ parts_of (args ++ rest)
  more_parts args rest queries =
      rw (skipped args queries, parts_of-append args rest)
        (append_assoc queries (parts_of args) (parts_of rest))

  conjunction_from :
      (q : ConjunctionQuery) (cs : List ListCall)
      → (conjunction_calls q cs).queries ≡ q.queries ++ parts_of (arguments cs)
  unfolding every conjunction_boost
  conjunction_from q [] = sym (append-nil q.queries)
  conjunction_from q (list_call args ∷ cs) =
      conjunction_from (every is_part args q) cs ∙ more_parts args (arguments cs) q.queries
  conjunction_from q (list_boost_call boost ∷ cs) = conjunction_from (conjunction_boost boost q) cs
  conjunction_from q (list_min_call n ∷ cs) = conjunction_from q cs

  disjunction_from :
      (q : DisjunctionQuery) (cs : List ListCall)
      → (disjunction_calls q cs).queries ≡ q.queries ++ parts_of (arguments cs)
  unfolding either disjunction_boost disjunction_min
  disjunction_from q [] = sym (append-nil q.queries)
  disjunction_from q (list_call args ∷ cs) =
      disjunction_from (either is_part args q) cs ∙ more_parts args (arguments cs) q.queries
  disjunction_from q (list_boost_call boost ∷ cs) = disjunction_from (disjunction_boost boost q) cs
  disjunction_from q (list_min_call n ∷ cs) = disjunction_from (disjunction_min n q) cs

  boolean_from :
      (q : BooleanQuery) (cs : List BooleanCall) → (boolean_calls q cs).must ≡ last_must cs q.must
  unfolding set_must set_must_not set_should compound_boost
  boolean_from q [] = refl
  boolean_from q (must_call args ∷ cs) =
      boolean_from (set_must is_part args q) cs ∙ ap (λ l. last_must cs (some l)) (skipped args [])
  boolean_from q (must_not_call args ∷ cs) = boolean_from (set_must_not is_part args q) cs
  boolean_from q (should_call args ∷ cs) = boolean_from (set_should is_part args q) cs
  boolean_from q (boolean_boost_call boost ∷ cs) = boolean_from (compound_boost boost q) cs

  -- However their methods are called, a conjunction and a disjunction hold the parts of a query among
  -- all the arguments that they were given, in order, and the `must` of a boolean query holds those
  -- among the arguments of its last call of `must`, if there is one.
  pub compound-parts :
      (args : List Zval) (cs : List ListCall) (bs : List BooleanCall)
      → (conjunction_calls (conjunction_init is_part args) cs).queries
          ≡ parts_of (args ++ arguments cs)
        × (disjunction_calls (disjunction_init is_part args) cs).queries
          ≡ parts_of (args ++ arguments cs)
        × (boolean_calls compound_init bs).must ≡ last_must bs none
  unfolding conjunction_init disjunction_init compound_init
  compound-parts args cs bs = (
    conjunction_from (conjunction_init is_part args) cs ∙ more_parts args (arguments cs) [],
    disjunction_from (disjunction_init is_part args) cs ∙ more_parts args (arguments cs) [],
    boolean_from compound_init bs,
  )
