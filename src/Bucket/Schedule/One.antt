-- ===== src/Bucket/Schedule/One.antt =====
-- The loop over one string, for an operation that has no other argument.
use php_couchbase.Base.{ℕ, ◌≡◌, refl, [], ◌∷◌, Option, some, Bytes}
use php_couchbase.OpCookie.{lcb_success}
use php_couchbase.Params.{PpState}
use php_couchbase.Params.One.{one_state, next-first, next-last}
use php_couchbase.Lcb.{Env, Command}
use php_couchbase.Bucket.Schedule.{Round, send, finished, schedule, step, round, after_submit, idle}

-- The loop schedules the one command, and stops.
pub schedule-one :
    (env : Env) (build : PpState → Round) (err : Option ℕ) (id : Bytes) (c : Command)
    → build (one_state id 1 id) ≡ send c
    → env.submit [] c ≡ lcb_success
    → schedule env build 2 (one_state id 0 []) (idle err)
      ≡ finished (record { nscheduled = 1; err = some lcb_success; accepted = c ∷ [] })
unfolding schedule step round after_submit
schedule-one env build err id c b s =
    rw (next-first env.fetch id) (rw (b, s, next-last env.fetch id) refl)
