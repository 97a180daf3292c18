-- ===== src/Tests/Redis.antt =====
-- The theorems on the Redis store, at one task.
use mathlib.Core.Path.{subst}
use kafka_a2a.Common.{
  arith, get_or, ap, String, ◌≡◌, refl, true, false, Option, none, some, List, [], ◌∷◌, ok,
  if◌then◌else◌, ◌==◌,
}
use kafka_a2a.Common.Lists.{keep, take}
use kafka_a2a.Common.Dict.{lookup, insert}
use kafka_a2a.Models.{
  TaskState, unknown, input_required, auth_required, failed, canceled, rejected, Task,
  TaskStatusUpdateEvent, working, completed, submitted, task,
}
use kafka_a2a.TaskStore.State.{InMemoryTaskStore, TaskEventRecord, empty, new_task}
use kafka_a2a.TaskStore.Append.{
  status_event, with_status, artifact_event, append_status, append_artifact, publish,
}
use kafka_a2a.TaskStore.State as State
use kafka_a2a.Redis.Server.{StreamEntry, entries_after, missing, stream}
use kafka_a2a.Redis.Json.{Json, TaskSurvives, StatusSurvives}
use kafka_a2a.Redis.Store.{get_task, latest_sequence, event_fields}
use kafka_a2a.Redis.Reads.{reads_agree}
use kafka_a2a.Redis.Held.{Held}
use kafka_a2a.Redis.Reader.{polls, poll, iter_events, take_entries, is_after}
use kafka_a2a.Redis.Polls.{readable, answer, polls_complete, grows, idle}
use kafka_a2a.Redis.Race.{overlapping_status, overlapping_status_lem, status_record, polls-Quiet}
use kafka_a2a.TaskStore.Reader as Reader
use kafka_a2a.Redis.Calls.{
  Call, create, status, artifact, AllSurvive, call_memory, run_redis, run_memory,
}
use kafka_a2a.Redis.Refines.{Mirrors}
use kafka_a2a.Redis.Agrees.{run_refines}
use kafka_a2a.Tests.RedisServer.{Keyspace, server}
use kafka_a2a.Tests.Data.{hello, in_state, result}

abbrev uuid : String
uuid = "0b8f3f0e-3c1d-4a57-9d2c-6a1f5e7b9c11"

abbrev t0 : Task
t0 = new_task uuid "context" 1 hello none none

abbrev t1 : Task
t1 = with_status t0 uuid (in_state working)

abbrev t2 : Task
t2 = record t1 { artifacts = result ∷ [] }

abbrev t3 : Task
t3 = with_status t0 uuid (in_state completed)

-- JSON for these tasks and their events: the state and the number of the artifacts tell them apart
abbrev task_text : Task → String
task_text t = elim t.artifacts [
  | [] ↦ elim t.status.state [ submitted ↦ "task 0" | working ↦ "task 1" | _ ↦ "task 3" ]
  | _ ↦ "task 2"
]

abbrev text_task : String → Option Task
text_task s =
    if s == "task 0"
    then some t0
    else if s == "task 1"
    then some t1
    else if s == "task 2"
    then some t2
    else if s == "task 3"
    then some t3
    else none

abbrev status_text : TaskStatusUpdateEvent → String
status_text e = elim e.status.state [ working ↦ "status 1" | _ ↦ "status 3" ]

abbrev text_status : String → Option TaskStatusUpdateEvent
text_status s =
    if s == "status 1"
    then some (status_event t0 uuid (in_state working))
    else if s == "status 3"
    then some (status_event t0 uuid (in_state completed))
    else none

unread :
    (state : TaskState) → text_task (elim state [ working ↦ "status 1" | _ ↦ "status 3" ]) ≡ none
unread unknown = refl
unread submitted = refl
unread working = refl
unread input_required = refl
unread auth_required = refl
unread completed = refl
unread failed = refl
unread canceled = refl
unread rejected = refl

abbrev json : Json
json = record {
  dump_task = task_text;
  validate_task = text_task;
  dump_status_event = status_text;
  validate_status_event = text_status;
  dump_artifact_event = λ e. "artifact";
  validate_artifact_event =
      λ s. if s == "artifact" then some (artifact_event t1 uuid result) else none;
  status_lacks_id = λ e. unread e.status.state;
  artifact_lacks_id = λ e. refl;
  artifact_lacks_status = λ e. refl;
}

abbrev nothing : Keyspace
nothing k = missing

abbrev calls : List Call
calls =
    create uuid "context" 1 hello none none
    ∷ status uuid (in_state working)
    ∷ artifact uuid result
    ∷ []

nothing-Mirrors : Mirrors server json "ka2a" nothing empty
unfolding lookup
nothing-Mirrors id p = record {
  no_snapshot = refl;
  no_counter = refl;
  no_events = refl;
  no_records = refl;
}

found :
    (P : Task → Type 0) (t : Task)
    → P t
    → (t' : Task) → ◌≡◌ {A = Option Task} (some t) (some t')
    → P t'
found P t p t' e = subst P (ap (λ o. get_or o t) e) p

calls_survive : AllSurvive json calls empty
unfolding lookup call_memory State.create_task new_task append_status append_artifact publish insert
    with_status status_event
calls_survive =
    ((refl, refl, refl), ((refl, found _ t0 (refl, refl)), ((refl, found _ t1 (refl, refl)), tt)))

working_survives :
    TaskSurvives json (with_status t0 uuid (in_state working))
    × StatusSurvives json (status_event t0 uuid (in_state working))
unfolding with_status new_task status_event
working_survives = (refl, refl)

completed_survives :
    TaskSurvives json (with_status t0 uuid (in_state completed))
    × StatusSurvives json (status_event t0 uuid (in_state completed))
unfolding with_status new_task status_event
completed_survives = (refl, refl)

run_refines_example :
    ((run_redis server json "ka2a" calls nothing).0 ≡ (run_memory calls empty).0)
    × Mirrors server json "ka2a"
        (run_redis server json "ka2a" calls nothing).1
        (run_memory calls empty).1
run_refines_example =
    run_refines server json "ka2a" calls nothing empty calls_survive nothing-Mirrors

mirrored :
    Mirrors server json "ka2a"
      (run_redis server json "ka2a" calls nothing).1
      (run_memory calls empty).1
mirrored = (run_refines server json "ka2a" calls nothing empty calls_survive nothing-Mirrors).1

reads_agree_example :
    (get_task server json "ka2a" uuid (run_redis server json "ka2a" calls nothing).1
      ≡ ok (State.get_task uuid (run_memory calls empty).1))
    × (latest_sequence server json "ka2a" uuid (run_redis server json "ka2a" calls nothing).1
        ≡ ok (Reader.latest_sequence uuid (run_memory calls empty).1))
reads_agree_example =
    reads_agree server json "ka2a" uuid (run_redis server json "ka2a" calls nothing).1
      (run_memory calls empty).1 refl mirrored

-- a keyspace with the stream of a task
abbrev entry : StreamEntry
entry = record { entry_id = 7; fields = event_fields 0 "task 0" }

abbrev streamed : Keyspace
streamed k = stream (entry ∷ [])

abbrev once : List (Keyspace × Keyspace)
once = (nothing, streamed) ∷ []

nothing_more :
    answer server json "ka2a" 10 uuid none
      (polls server json "ka2a" 10 once (iter_events uuid true none))
      streamed
      streamed
    ≡ []
unfolding answer polls poll iter_events take_entries entries_after keep take
nothing_more = refl

polls_complete_example :
    (polls server json "ka2a" 10 once (iter_events uuid true none)).yielded
    ≡ keep (is_after none) (readable json (entry ∷ []))
polls_complete_example =
    polls_complete server json "ka2a" 10 uuid none once streamed streamed (omega arith)
      (grows (entry ∷ []) nothing streamed refl (omega arith, tt) idle) refl (omega arith, tt)
      nothing_more

abbrev created : List Call
created = create uuid "context" 1 hello none none ∷ []

abbrev first_record : TaskEventRecord
first_record = record { sequence = 0; event = task uuid }

created-Held :
    Held server json "ka2a" uuid t0
      (first_record ∷ [])
      (run_redis server json "ka2a" created nothing).1
unfolding lookup insert run_memory call_memory State.create_task new_task
created-Held =
    (run_refines server json "ka2a" created nothing empty ((refl, refl, refl), tt)
        nothing-Mirrors).1
      uuid refl

overlapping_status_lem_example :
    (after : Keyspace) × (overlapping_status server json "ka2a" uuid
        (in_state working)
        (in_state completed)
        (run_redis server json "ka2a" created nothing).1
      ≡ ok after)
    × (get_task server json "ka2a" uuid after
        ≡ ok (some (with_status t0 uuid (in_state completed))))
    × Held server json "ka2a" uuid
        (with_status t0 uuid (in_state completed))
        (status_record server json "ka2a" t0 uuid
          (in_state completed)
          (status_record server json "ka2a" t0 uuid (in_state working) (first_record ∷ [])))
        after
overlapping_status_lem_example =
    overlapping_status_lem server json "ka2a" uuid t0 (in_state working) (in_state completed)
      (first_record ∷ []) (run_redis server json "ka2a" created nothing).1 refl created-Held
      working_survives.0 working_survives.1 completed_survives.0 completed_survives.1

polls-Quiet_example :
    (polls server json "ka2a" 10
      ((nothing, nothing) ∷ (streamed, streamed) ∷ [])
      (iter_events uuid false none)).yielded
    ≡ []
polls-Quiet_example =
    polls-Quiet server json "ka2a" 10 uuid none ((nothing, nothing) ∷ (streamed, streamed) ∷ []) (
      record { entries = []; at_start = refl; at_reply = refl; ascending = tt },
      (
        record {
          entries = entry ∷ [];
          at_start = refl;
          at_reply = refl;
          ascending = (omega arith, tt);
        },
        tt,
      ),
    )
