-- ===== src/Tests/Agents.antt =====
-- The theorems on the handlers and on a run, at the agent with the task that waits.
use kafka_a2a.Common.{◌≡◌, refl, false, none, some, [], ◌∷◌, ◌++◌, if◌then◌else◌, ok, raise}
use kafka_a2a.Common.Dict.{lookup}
use kafka_a2a.Common.Lists.{keep}
use kafka_a2a.Common.Value.{Metadata, or_empty}
use kafka_a2a.Errors.{Exc}
use kafka_a2a.Models.{
  Message, working, completed, failed, canceled, input_required, Task, task, status_update,
}
use kafka_a2a.Tenancy.{extract_principal, matches, with_principal}
use kafka_a2a.TaskStore.State.{TaskEventRecord, get_task, is_final}
use kafka_a2a.TaskStore.Append.{with_status, status_event}
use kafka_a2a.Agent.Conversation.{task_principal}
use kafka_a2a.Agent.State.{AgentState, Effect, Reply}
use kafka_a2a.Agent.Access.{accessible_task, request_metadata}
use kafka_a2a.Agent.Tasks.{TaskContinueParams, tasks_cancel, resume_task, is_processing, is_waiting}
use kafka_a2a.Agent.Processing.{artifact, status, returned, raised, handle_items, run}
use kafka_a2a.Agent.Runs.{Present, IsOver, run-IsOver, run_raised}
use kafka_a2a.Agent.Resume.{
  canceled_status, IsResumed, tasks_cancel_ok, resume_task-IsResumed, resume_task_refused,
}
use kafka_a2a.Agent.Forward.{forwarded}
use kafka_a2a.Agent.Replay.{sent, forwarded-final}
use kafka_a2a.Agent.PushQueue.{Mirrors, handle_items-Mirrors}
use kafka_a2a.Tests.Data.{codec, cfg, alice, from, hello, fresh, in_state, result, waiting, s0}

present : Present "task" s0
unfolding lookup
present = (waiting, refl)

run-IsOver_example :
    IsOver "task" (run cfg "task" "m" 5 (artifact result ∷ []) returned s0)
    × (lookup "task" (run cfg "task" "m" 5 (artifact result ∷ []) returned s0).processing ≡ none)
run-IsOver_example =
    run-IsOver cfg "task" "m" 5 (artifact result ∷ []) returned s0 (λ e. absurd cc) present

run_raised_example :
    (t : Task) × (lookup "task"
        (run cfg "task" "m" 5 (status (in_state completed) ∷ []) (raised "lost") s0).store.tasks
      ≡ some t)
    × (t.status.state ≡ failed)
run_raised_example =
    run_raised cfg "task" "m" 5 (status (in_state completed) ∷ []) "lost" s0 present

handle_items-Mirrors_example :
    Mirrors 2 "task" s0
      (handle_items cfg "task" "m" 5
        (artifact result ∷ artifact result ∷ artifact result ∷ [])
        returned
        s0).1
handle_items-Mirrors_example =
    handle_items-Mirrors cfg "task" "m" 5 (artifact result ∷ artifact result ∷ artifact result ∷ [])
      returned s0

found : lookup "task" s0.store.tasks ≡ some waiting
unfolding lookup
found = refl

granted : accessible_task codec cfg "task" (from alice) s0 ≡ (ok waiting, s0)
unfolding accessible_task lookup extract_principal task_principal matches get_task
granted = refl

tasks_cancel_ok_example :
    ((tasks_cancel codec cfg fresh (record { id = "task"; metadata = from alice }) s0).0
      ≡ ok (Reply.task (with_status waiting "task" (canceled_status codec cfg fresh waiting))))
    × (lookup "task"
          (tasks_cancel codec cfg fresh
            (record { id = "task"; metadata = from alice })
            s0).1.store.tasks
        ≡ some (with_status waiting "task" (canceled_status codec cfg fresh waiting)))
    × ((tasks_cancel codec cfg fresh (record { id = "task"; metadata = from alice }) s0).1.effects
        ≡ (if is_processing "task" s0 then s0.effects ++ Effect.cancel "task" ∷ [] else s0.effects))
    × ((with_status waiting "task" (canceled_status codec cfg fresh waiting)).status.state
        ≡ canceled)
tasks_cancel_ok_example =
    tasks_cancel_ok codec cfg fresh (record { id = "task"; metadata = from alice }) s0 granted found

abbrev more : TaskContinueParams
more = record { id = "task"; message = hello; configuration = none; metadata = from alice }

abbrev forwarded_metadata : Metadata
forwarded_metadata = with_principal codec (or_empty (from alice)) alice "principal"

known : request_metadata codec cfg (from alice) s0 ≡ (ok forwarded_metadata, s0)
unfolding request_metadata lookup extract_principal
known = refl

resume_task-IsResumed_example :
    (message : Message) × (u : Task) × ((resume_task codec cfg fresh more s0).0
      ≡ ok (waiting, message, forwarded_metadata))
    × (lookup "task" (resume_task codec cfg fresh more s0).1.store.tasks ≡ some u)
    × ((resume_task codec cfg fresh more s0).1.effects ≡ s0.effects)
    × IsResumed codec cfg fresh waiting hello message u
unfolding is_waiting is_processing lookup
resume_task-IsResumed_example =
    resume_task-IsResumed codec cfg fresh more forwarded_metadata s0 granted found refl refl known

-- the same agent while the task is being processed
abbrev busy : AgentState
busy = record s0 { processing = ("task", false) ∷ [] }

busy_granted : accessible_task codec cfg "task" (from alice) busy ≡ (ok waiting, busy)
unfolding accessible_task lookup extract_principal task_principal matches get_task
busy_granted = refl

resume_task_refused_example : (e : Exc) × (resume_task codec cfg fresh more busy ≡ (raise e, busy))
unfolding is_waiting is_processing lookup
resume_task_refused_example = resume_task_refused codec cfg fresh more busy busy_granted refl

abbrev created : TaskEventRecord
created = record { sequence = 0; event = task "task" }

abbrev asked : TaskEventRecord
asked = record {
  sequence = 1;
  event = status_update (status_event waiting "task" (in_state input_required));
}

abbrev resumed : TaskEventRecord
resumed = record {
  sequence = 2;
  event = status_update (status_event waiting "task" (in_state working));
}

forwarded-final_example :
    forwarded (created ∷ asked ∷ resumed ∷ []) ≡ keep sent (created ∷ []) ++ asked ∷ []
unfolding status_event is_final
forwarded-final_example = forwarded-final (created ∷ []) (resumed ∷ []) asked (refl, tt) refl
