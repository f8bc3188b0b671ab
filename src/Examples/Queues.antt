-- ===== src/Examples/Queues.antt =====
-- A queue that counts one key's retries, and events on reports (pkg/operator/queues.go).
use operator_metering.Prelude.{ℕ, suc, ◌≡◌, refl, true, Option, none, some, arith, String}
use operator_metering.Prom.Chunks.{pos}
use operator_metering.Queue.{key, WorkQueue}
use operator_metering.Queue.Retries.{LeavesCounts, rounds_of, retries_exact}
use operator_metering.Queue.Events.{Resource}

-- The world is the count of the one key that is in use.
abbrev counter : WorkQueue ℕ
counter = record {
  get = λ w. (some (key "ns/report"), w);
  done = λ o w. w;
  forget = λ o w. 0;
  add_rate_limited = λ o w. suc w;
  num_requeues = λ o w. w;
  num_requeues-forget = λ o w. refl;
  num_requeues-add = λ o w. refl;
  num_requeues-done = λ o p w. refl;
}

abbrev failing : String → ℕ → Option String × ℕ
failing k w = (some "not ready", w)

failing-LeavesCounts : LeavesCounts counter failing
failing-LeavesCounts = λ k w. refl

retries_exact_example :
    (rounds_of counter failing (key "ns/report") (pos 5) 3 0 ≡ 3)
    × ((w' : ℕ) × (rounds_of counter failing (key "ns/report") (pos 5) 6 0 ≡ 0))
retries_exact_example =
    retries_exact counter failing "ns/report" 5 failing-LeavesCounts 0 3 (λ w. ("not ready", refl))
      refl (omega arith)

abbrev created : Resource
created = record {
  namespace = "ns";
  name = "report";
  deletion_timestamp = none;
  resource_version = "1";
  spec_id = "spec";
  is_prometheus = true;
  import_status_id = "0";
}

abbrev key_of : Resource → Option String
key_of r = some r.name

-- Only the status was updated.
abbrev touched : Resource
touched = record created { resource_version = "2"; import_status_id = "1" }
