-- ===== src/Tests/Runtime.antt =====
-- The theorems on the shared runtime, at a registry with one agent changed and one gone.
use kafka_a2a.Common.{String, ◌≡◌, ◌⊎◌, Bool, not, ◌==◌, true, [], ◌∷◌, ok}
use kafka_a2a.Common.Value.{Fields, str, obj, arr, field, end, cons, nil}
use kafka_a2a.SharedRuntime.State.{ManagedAgent, ServiceState, Reconciled, stop_failed, reconcile}
use kafka_a2a.SharedRuntime.Stops.{Aborted}
use kafka_a2a.SharedRuntime.Folds.{at}
use kafka_a2a.SharedRuntime.Reconcile.{registry_of, after_reconcile, reconcile_lem}

abbrev payload_of : String → String → Fields
payload_of name version = field "runtime_name" (str name) (field "version" (str version) end)

abbrev version_of : Fields → String
version_of (field _ _ (field _ (str version) _)) = version
version_of _ = ""

abbrev answer : Fields
answer =
    field "agents" (arr (cons (obj (payload_of "a" "2")) (cons (obj (payload_of "c" "1")) nil))) end

abbrev service : ServiceState
service = record {
  managed =
      ("a", record { fingerprint = "1"; payload = payload_of "a" "1" })
      ∷ ("b", record { fingerprint = "1"; payload = payload_of "b" "1" })
      ∷ [];
  last_registry_agents = [];
  events = [];
}

-- the stop of `b` raises
abbrev stops_but_b : String → ManagedAgent → Bool
stops_but_b name m = not (name == "b")

abbrev after : Reconciled × ServiceState
after = reconcile (λ v. "") version_of (λ name p. true) stops_but_b (ok answer) service

reconcile_lem_example :
    ((name : String) × (after.0 ≡ stop_failed name) × Aborted stops_but_b name service after.1)
    ⊎ ((k : String)
        → at k after.1
          ≡ after_reconcile
              (λ v. "")
              version_of
              (λ name p. true)
              stops_but_b
              (registry_of (ok answer) service)
              k
              (at k service))
reconcile_lem_example =
    reconcile_lem (λ v. "") version_of (λ name p. true) stops_but_b (ok answer) service
