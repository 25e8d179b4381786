-- ===== src/Params/One.antt =====
-- paramparser.c: the iteration of a state that has one string as its id, and no other argument.
use php_couchbase.Base.{ℕ, ◌≡◌, refl, [], Bytes, Option}
use php_couchbase.Zval.{Zval, Entries, string, end}
use php_couchbase.Params.{PpState, item, done, next, set_base, next_ids}

abbrev pub one_state : Bytes → ℕ → Bytes → PpState
one_state id cur_idx cur = record {
  args = [];
  arg_req = 1;
  arg_opt = 0;
  arg_named = 0;
  cur_idx = cur_idx;
  zids = string id;
  hash_pos = end;
  id = cur;
}

pub next-first :
    (fetch : Entries → Bytes → Option Zval) (id : Bytes)
    → next fetch (one_state id 0 []) ≡ item (one_state id 1 id)
unfolding next set_base next_ids
next-first fetch id = refl

pub next-last :
    (fetch : Entries → Bytes → Option Zval) (id : Bytes)
    → next fetch (one_state id 1 id) ≡ done (one_state id 1 id)
unfolding next set_base next_ids
next-last fetch id = refl
