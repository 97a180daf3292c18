-- ===== src/Decisioning/Circuit.antt =====
-- `_circuit_is_open` and `_record_circuit_result` of src/kafka_a2a/decisioning/service.py. The clock
-- counts from 1, so that 0 stands for a circuit that is closed.
use kafka_a2a.Common.{
  ℕ, suc, ◌+◌, Bool, true, false, ltb, leb, nat_eq, if◌then◌else◌, List, [], ◌∷◌,
}
use kafka_a2a.Decisioning.Contracts.{DecisioningConfig, DecisionResult, is_success, is_transient}

pub record Circuit : Type 0 where
  pub consecutive_failures : ℕ
  pub circuit_open_until : ℕ

abbrev pub closed_circuit : Circuit
closed_circuit = record { consecutive_failures = 0; circuit_open_until = 0 }

-- The answer, and the circuit after it: the one whose time is over is closed.
unfoldable pub circuit_is_open : ℕ → Circuit → Bool × Circuit
circuit_is_open now c =
    if nat_eq c.circuit_open_until 0
    then (false, c)
    else if ltb now c.circuit_open_until
    then (true, c)
    else (false, closed_circuit)

count_failure : DecisioningConfig → ℕ → Circuit → Circuit
count_failure cfg now c = record {
  consecutive_failures = suc c.consecutive_failures;
  circuit_open_until =
      if leb cfg.circuit_failure_threshold (suc c.consecutive_failures)
      then now + cfg.circuit_open_s
      else c.circuit_open_until;
}

unfoldable pub record_circuit_result : DecisioningConfig → ℕ → DecisionResult → Circuit → Circuit
unfolding count_failure
record_circuit_result cfg now result c =
    if is_success result
    then record c { consecutive_failures = 0 }
    else if is_transient result
    then count_failure cfg now c
    else c

-- results in turn, each with the time at which it is recorded
unfoldable pub record_results : DecisioningConfig → List (ℕ × DecisionResult) → Circuit → Circuit
record_results cfg [] c = c
record_results cfg ((now, r) ∷ rs) c = record_results cfg rs (record_circuit_result cfg now r c)
