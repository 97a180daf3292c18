-- ===== src/Decisioning/Breaker.antt =====
-- When the circuit is open, and what it spares.
use kafka_a2a.Common.{
  ℕ, suc, ◌+◌, ◌<◌, ◌≡◌, refl, ap, ◌∙◌, Bool, true, false, some, List, [], ◌∷◌, ◌++◌, leb, nat_eq,
  if◌then◌else◌, arith, String,
}
use kafka_a2a.Common.Lists.{length, All}
use kafka_a2a.Decisioning.Contracts.{
  DecisioningConfig, DecisionErrorCategory, DecisionFallbackReason, DecisionResult,
  ShadowDecisionObservation, is_success, is_transient, fallback,
}
use kafka_a2a.Decisioning.Circuit.{Circuit, circuit_is_open, record_circuit_result, record_results}
use kafka_a2a.Decisioning.Service.{Call, DecisionService, own_fallback, ask, evaluate}

-- a result that counts against the provider
abbrev pub Fails : ℕ × DecisionResult → Type 0
Fails e = (is_success e.1 ≡ false) × (is_transient e.1 ≡ true)

module _ (cfg : DecisioningConfig) where
  -- the circuit after a failure
  abbrev failed_once : ℕ → Circuit → Circuit
  failed_once now c = record {
    consecutive_failures = suc c.consecutive_failures;
    circuit_open_until =
        if leb cfg.circuit_failure_threshold (suc c.consecutive_failures)
        then now + cfg.circuit_open_s
        else c.circuit_open_until;
  }

  record_failure :
      (now : ℕ) (r : DecisionResult) (c : Circuit)
      → Fails (now, r)
      → record_circuit_result cfg now r c ≡ failed_once now c
  unfolding record_circuit_result
  record_failure now r c (bad, transient) = rw (bad, transient) refl

  -- Failures in a row are counted.
  failures-count :
      (rs : List (ℕ × DecisionResult)) (c : Circuit)
      → All Fails rs
      → (record_results cfg rs c).consecutive_failures ≡ c.consecutive_failures + length rs
  unfolding record_results
  failures-count [] c h = omega arith
  failures-count ((now, r) ∷ rs) c (bad, h) =
      rw (record_failure now r c bad, record_results, failures-count rs (failed_once now c) h)
        (omega arith)

  failures-below :
      (rs : List (ℕ × DecisionResult)) (c : Circuit)
      → All Fails rs
      → c.consecutive_failures + length rs < cfg.circuit_failure_threshold
      → (record_results cfg rs c).circuit_open_until ≡ c.circuit_open_until
  unfolding record_results
  failures-below [] c h few = refl
  failures-below ((now, r) ∷ rs) c (bad, h) few =
      rw (record_failure now r c bad, record_results)
        (failures-below rs (failed_once now c) h still ∙ ground arith)
    where
      still : suc c.consecutive_failures + length rs < cfg.circuit_failure_threshold
      still = omega arith

  record_results-append :
      (rs qs : List (ℕ × DecisionResult)) (c : Circuit)
      → record_results cfg (rs ++ qs) c ≡ record_results cfg qs (record_results cfg rs c)
  unfolding record_results
  record_results-append [] qs c = refl
  record_results-append ((now, r) ∷ rs) qs c =
      record_results-append rs qs (record_circuit_result cfg now r c)

  -- From a circuit with no failures, failures in a row that are fewer than the threshold leave the time
  -- until which it is open, and the failure that reaches the threshold sets that time.
  pub failures_open :
      (rs : List (ℕ × DecisionResult)) (now : ℕ) (r : DecisionResult) (c : Circuit)
      → All Fails rs
      → Fails (now, r)
      → c.consecutive_failures ≡ 0
      → suc (length rs) ≡ cfg.circuit_failure_threshold
      → ((record_results cfg rs c).circuit_open_until ≡ c.circuit_open_until)
        × ((record_results cfg (rs ++ (now, r) ∷ []) c).circuit_open_until
            ≡ now + cfg.circuit_open_s)
  unfolding record_results
  failures_open rs now r c h bad fresh many = (
    failures-below rs c h (omega arith),
    rw
        (
          record_results-append rs ((now, r) ∷ []) c,
          record_failure now r (record_results cfg rs c) bad,
          failures-count rs c h,
        )
        (ground arith),
  )

  circuit_stays_open :
      (now : ℕ) (c : Circuit)
      → nat_eq c.circuit_open_until 0 ≡ false
      → now < c.circuit_open_until
      → circuit_is_open now c ≡ (true, c)
  unfolding circuit_is_open
  circuit_stays_open now c opened early = ground arith

  -- While the circuit is open an evaluation does not depend on the provider's calls: the result is the
  -- fallback for an open circuit, and the circuit stays as it is.
  pub open_spares :
      (now later : ℕ) (calls : ℕ → Call) (on_success : String) (o : ShadowDecisionObservation)
      (s : DecisionService)
      → nat_eq s.circuit.circuit_open_until 0 ≡ false
      → now < s.circuit.circuit_open_until
      → (s' : DecisionService) × (evaluate cfg now later calls on_success o s
          ≡ some (
            own_fallback cfg DecisionFallbackReason.circuit_open
                (some DecisionErrorCategory.circuit_open),
            s',
          ))
        × (s'.circuit ≡ s.circuit)
  unfolding evaluate ask record_circuit_result is_success is_transient own_fallback fallback
  open_spares now later calls on_success o s opened early =
      rw (circuit_stays_open now s.circuit opened early, evaluate)
        (_, refl, ap (λ (x : Bool × Circuit). x.1) (circuit_stays_open now s.circuit opened early))
