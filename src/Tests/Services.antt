-- ===== src/Tests/Services.antt =====
-- The theorems on decisions, the registry, the charges and the memory of a context.
use kafka_a2a.Common.{
  ℕ, suc, ◌+◌, ◌<◌, ◌≡◌, refl, true, false, Option, none, some, [], ◌∷◌, ◌++◌, arith, not, ◌&&◌,
  if◌then◌else◌,
}
use kafka_a2a.Common.Value.{Value, obj, str, bool, field, end, arr, nil, cons}
use kafka_a2a.Decisioning.Contracts.{
  DecisionMode, DecisioningConfig, DecisionErrorCategory, DecisionFallbackReason, DecisionResult,
  DecisionCapability, ShadowDecisionObservation, fallback, is_success, is_transient,
}
use kafka_a2a.Decisioning.Circuit.{closed_circuit, record_results}
use kafka_a2a.Decisioning.Service.{
  timed_out, DecisionService, call_with_retry, evaluate, own_fallback,
}
use kafka_a2a.Decisioning.Retry.{Settled, call_with_retry_settles}
use kafka_a2a.Decisioning.Breaker.{Fails, failures_open, open_spares}
use kafka_a2a.Registry.Entries.{RegistryEntry}
use kafka_a2a.Registry.Directory.{get as get_card, applies, prunes, acts}
use kafka_a2a.Registry.Latest.{outlasts, get-acts}
use kafka_a2a.Coins.Tracker.{A2ACompletionChargeTracker, charges}
use kafka_a2a.Coins.Once.{Once, charges_once_lem}
use kafka_a2a.ContextMemory.{ContextMemory, InMemoryContextMemoryStore, get, set}
use kafka_a2a.ContextMemory.Owners.{has_no_colon, get-set_foreign}
use kafka_a2a.Tests.Data.{alice, bob}

abbrev decisions : DecisioningConfig
decisions = record {
  enabled = true;
  provider = "typesafe";
  mode = DecisionMode.shadow;
  api_key = some "k";
  model = some "m";
  max_concurrency = 4;
  retry_max_retries = 1;
  circuit_failure_threshold = 2;
  circuit_open_s = 30;
  queue_maxsize = 200;
  telemetry_topic = "events";
}

call_with_retry_settles_example :
    (r : DecisionResult) × (k : ℕ) × (call_with_retry decisions
        (suc decisions.retry_max_retries)
        (λ n. timed_out)
        0
      ≡ some (r, k))
    × Settled decisions (λ n. timed_out) 0 k r
call_with_retry_settles_example = call_with_retry_settles decisions (λ n. timed_out)

abbrev late : DecisionResult
late =
    fallback "typesafe" none DecisionFallbackReason.provider_failure
      (some DecisionErrorCategory.timeout)

late-Fails : (now : ℕ) → Fails (now, late)
unfolding fallback is_success is_transient
late-Fails now = (refl, refl)

failures_open_example :
    ((record_results decisions ((5, late) ∷ []) closed_circuit).circuit_open_until ≡ 0)
    × ((record_results decisions
          ((5, late) ∷ [] ++ (6, late) ∷ [])
          closed_circuit).circuit_open_until
        ≡ 6 + 30)
failures_open_example =
    failures_open decisions ((5, late) ∷ []) 6 late closed_circuit (late-Fails 5, tt) (late-Fails 6)
      refl refl

abbrev observation : ShadowDecisionObservation
observation = record {
  request = record {
    capability = DecisionCapability.host_turn_intent;
    state = [];
    state_hash = none;
    state_was_redacted = false;
    state_was_truncated = false;
    question = record { key = "q"; instructions = ""; candidates = [] };
    attribution = record {
      profile_id = none;
      task_id = none;
      context_id = none;
      trace_id = none;
      agent_slug = "host";
    };
    mode = DecisionMode.shadow;
    policy_version = "1";
  };
  baseline_decision = none;
}

abbrev tripped : DecisionService
tripped = record {
  provider = none;
  queue = none;
  workers = 0;
  closed = false;
  circuit = record { consecutive_failures = 2; circuit_open_until = 36 };
  emitted = [];
}

open_spares_example :
    (s' : DecisionService) × (evaluate decisions 10 11
        (λ n. timed_out)
        "success"
        observation
        tripped
      ≡ some (
        own_fallback decisions DecisionFallbackReason.circuit_open
            (some DecisionErrorCategory.circuit_open),
        s',
      ))
    × (s'.circuit ≡ tripped.circuit)
open_spares_example =
    open_spares decisions 10 11 (λ n. timed_out) "success" observation tripped refl early
  where
    early : 10 < 36
    early = omega arith

abbrev seen_at : ℕ → RegistryEntry
seen_at t = record {
  agent_name = "a";
  card = some (record { name = "a"; fields = end });
  published_at = t;
  deleted = false;
}

get-acts_example :
    get_card "a" (acts (some 300) ([] ++ applies 9 (seen_at 8) ∷ prunes 20 ∷ prunes 400 ∷ []) [])
    ≡ (if not false && outlasts (some 300) 8 (prunes 9 ∷ prunes 20 ∷ prunes 400 ∷ [])
        then (seen_at 8).card
        else none)
get-acts_example = get-acts (some 300) [] (prunes 20 ∷ prunes 400 ∷ []) 9 (seen_at 8) (tt, (tt, tt))

-- the end of a task, with a message that has text
abbrev done : Option Value
done = some (
    obj (
      field "kind" (str "status-update") (
        field "taskId" (str "task") (
          field "final" (bool true) (
            field "status"
              (obj (
                field "state" (str "completed") (
                  field "message"
                    (obj (
                      field "parts"
                        (arr (
                          cons (obj (field "kind" (str "text") (field "text" (str "done") end)))
                            nil))
                        end))
                    end)))
              end)))))

abbrev tracker : A2ACompletionChargeTracker
tracker = record {
  profile_id = some "p";
  conversation_id = none;
  prompt_text = none;
  current_task_id = none;
  assistant_result_seen = false;
  charged_reference_ids = [];
}

charges_once_lem_example : Once (charges (λ v. "") (done ∷ done ∷ []) tracker)
charges_once_lem_example = charges_once_lem (λ v. "") (done ∷ done ∷ []) tracker

abbrev memory : ContextMemory
memory = record {
  summary = some "s";
  profile = none;
  workflow_state = none;
  analysis = none;
  fact_packets = none;
  updated_at = none;
}

abbrev memories : InMemoryContextMemoryStore
memories = record { namespace = "ka2a"; mem = [] }

get-set_foreign_example :
    get "x:tenant:t:user:bob" (some bob) (set "now" "bob:context:x" (some alice) memory memories)
    ≡ get "x:tenant:t:user:bob" (some bob) memories
unfolding has_no_colon
get-set_foreign_example =
    get-set_foreign "now" "bob:context:x" "x:tenant:t:user:bob" (some alice) (some bob) memory
      memories refl refl refl
