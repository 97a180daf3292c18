-- ===== src/Decisioning/Service.antt =====
-- `DecisionService` of src/kafka_a2a/decisioning/service.py. The provider is outside: it is what each of
-- its calls ends in, by the number of the call. Whether a request is in the sample, which
-- `should_sample` says, is an argument. A worker takes an observation from the queue and evaluates it.
use kafka_a2a.Common.{
  ℕ, zero, suc, String, Bool, true, false, not, ◌&&◌, ◌||◌, Option, none, some, List, [], ◌∷◌, ◌++◌,
  ◌==◌, leb, ltb, nat_eq, if◌then◌else◌, is_given, get_or, is_some,
}
use kafka_a2a.Common.Lists.{length}
use kafka_a2a.Decisioning.Contracts.{
  DecisioningConfig, DecisionErrorCategory, DecisionFallbackReason, timeout, network, unavailable,
  missing_configuration, provider_failure, queue_full, DecisionRequest, DecisionResult,
  ShadowDecisionObservation, DecisionTelemetryEvent, is_success, fallback, is_transient, is_active,
}
use kafka_a2a.Decisioning.Circuit.{Circuit, circuit_is_open, record_circuit_result}

-- How a call of the provider ends, under its time limit.
pub data Call : Type 0 where
  answered : DecisionResult → Call
  timed_out : Call
  failed : Call

abbrev pub Provider : Type 0
Provider = DecisionRequest → ℕ → Call

pub record DecisionService : Type 0 where
  pub provider : Option Provider
  pub queue : Option (List ShadowDecisionObservation)
  pub workers : ℕ
  pub closed : Bool
  pub circuit : Circuit
  pub emitted : List DecisionTelemetryEvent

module _ (cfg : DecisioningConfig) where
  unfoldable pub is_shadow_active : DecisionService → Bool
  is_shadow_active s = is_active cfg && is_some s.provider && not s.closed

  -- `DecisionResult.fallback` with the provider and the model of the configuration
  unfoldable pub own_fallback :
      DecisionFallbackReason → Option DecisionErrorCategory → DecisionResult
  own_fallback = fallback cfg.provider cfg.model

  -- what an attempt gives
  unfoldable pub attempt : Call → DecisionResult
  attempt (answered result) = result
  attempt timed_out = own_fallback provider_failure (some timeout)
  attempt failed = own_fallback provider_failure (some network)

  -- The loop of `_call_with_retry`, on fuel: `none` is fuel that ran out.
  unfoldable pub call_with_retry : ℕ → (ℕ → Call) → ℕ → Option (DecisionResult × ℕ)
  call_with_retry zero calls attempts = none
  call_with_retry (suc fuel) calls attempts =
      let rest = call_with_retry fuel calls (suc attempts) in
      let result = attempt (calls attempts) in
      if not (is_transient result) || leb cfg.retry_max_retries attempts
      then some (result, attempts)
      else rest

  emit :
      ShadowDecisionObservation
      → DecisionResult
      → String
      → ℕ
      → String
      → DecisionService
      → DecisionService
  emit observation result comparison retry_count outcome s = record s {
    emitted =
        s.emitted
        ++ record {
          request = observation.request;
          result = result;
          baseline_decision = observation.baseline_decision;
          comparison = comparison;
          retry_count = retry_count;
          outcome = outcome;
          telemetry_topic = cfg.telemetry_topic;
        }
          ∷ [];
  }

  -- `asyncio.Queue(maxsize).full()`
  is_full : List ShadowDecisionObservation → Bool
  is_full queue = not (nat_eq cfg.queue_maxsize 0) && leb cfg.queue_maxsize (length queue)

  ensure_workers : DecisionService → DecisionService
  ensure_workers s = record s {
    queue = some (get_or s.queue []);
    workers = if ltb s.workers cfg.max_concurrency then cfg.max_concurrency else s.workers;
  }

  put : ShadowDecisionObservation → DecisionService → Bool × DecisionService
  unfolding emit is_full own_fallback
  put observation s =
      let queue = get_or s.queue [] in
      if is_full queue
      then (false, emit observation (own_fallback queue_full none) "unknown" 0 "dropped" s)
      else (true, record s { queue = some (queue ++ observation ∷ []) })

  -- `sampled` is what `should_sample` says of the request
  unfoldable pub submit_shadow :
      Bool → ShadowDecisionObservation → DecisionService → Bool × DecisionService
  unfolding put ensure_workers
  submit_shadow sampled observation s =
      if not (is_shadow_active s) || not sampled
      then (false, s)
      else put observation (ensure_workers s)

  compare_with : Option String → DecisionResult → String
  compare_with baseline result =
      if is_success result && is_given baseline
      then (if get_or result.selected_candidate "" == get_or baseline ""
          then "matched"
          else "diverged")
      else "unknown"

  outcome_of : String → DecisionResult → String
  outcome_of on_success result =
      if is_some result.error_category
      then "fallback"
      else if is_success result
      then on_success
      else "fallback"

  -- the result of an evaluation, with the number of its retries
  unfoldable pub ask : Bool → (ℕ → Call) → Option (DecisionResult × ℕ)
  unfolding own_fallback
  ask true calls = some (
    own_fallback DecisionFallbackReason.circuit_open (some DecisionErrorCategory.circuit_open),
    0,
  )
  ask false calls = call_with_retry (suc cfg.retry_max_retries) calls 0

  -- `_evaluate`, which asks at the time `now` and records at the time `later`
  unfoldable pub evaluate :
      ℕ
      → ℕ
      → (ℕ → Call)
      → String
      → ShadowDecisionObservation
      → DecisionService
      → Option (DecisionResult × DecisionService)
  unfolding ask compare_with outcome_of emit
  evaluate now later calls on_success observation s =
      let (is_open, c) = circuit_is_open now s.circuit in
      elim (ask is_open calls) [
        | none ↦ none
        | some (result, retry_count) ↦ some (
          result,
          emit observation result (compare_with observation.baseline_decision result) retry_count
              (outcome_of on_success result)
              (record s { circuit = record_circuit_result cfg later result c }),
        )
      ]

  unfoldable pub decide_now :
      ℕ
      → ℕ
      → ShadowDecisionObservation
      → DecisionService
      → Option (DecisionResult × DecisionService)
  unfolding own_fallback
  decide_now now later observation s =
      if is_shadow_active s
      then elim s.provider [
        | none ↦ none
        | some provider ↦
            evaluate now later (provider observation.request) "enforcement_evaluated" observation s
      ]
      else some (own_fallback missing_configuration (some unavailable), s)

  -- `aclose`, after the time for which it waits: the queue is emptied and the workers are gone
  unfoldable pub aclose : DecisionService → DecisionService
  aclose s = record s {
    closed = true;
    workers = 0;
    queue = elim s.queue [ none ↦ none | some queue ↦ some [] ];
  }
