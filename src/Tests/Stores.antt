-- ===== src/Tests/Stores.antt =====
-- The theorems on the store, at a store with one task.
use kafka_a2a.Common.{
  suc, String, ◌≡◌, refl, true, none, some, List, [], ◌∷◌, ◌++◌, ◌==◌, ◌&&◌, if◌then◌else◌, ok,
}
use kafka_a2a.Common.Lists.{length, keep, All}
use kafka_a2a.Common.Dict.{lookup, insert}
use kafka_a2a.Models.{working, PushNotificationConfig}
use kafka_a2a.TaskStore.State.{TaskEventRecord, InMemoryTaskStore, empty, create_task}
use kafka_a2a.TaskStore.Append.{append_status, append_artifact, publish, with_status}
use kafka_a2a.TaskStore.Reader.{Reader, iter_events, is_after, latest_sequence, take_record}
use kafka_a2a.TaskStore.PushConfigs.{
  set_push_notification_config, get_push_notification_config, delete_push_notification_config,
  for_task,
}
use kafka_a2a.TaskStore.Ops.{status, run}
use kafka_a2a.TaskStore.Log.{log}
use kafka_a2a.TaskStore.WellFormed.{IsWellFormed, IsWellFormed-empty, run-IsWellFormed}
use kafka_a2a.TaskStore.Streams.{Move, call, play, Spares}
use kafka_a2a.TaskStore.Complete.{HasNoFuture, iter_events_complete}
use kafka_a2a.TaskStore.Drain.{turns, backlog, HasNoFuture-empty, run-HasNoFuture}
use kafka_a2a.TaskStore.CatchUp.{reader_catches_up}
use kafka_a2a.TaskStore.Numbers.{latest_sequence_lem}
use kafka_a2a.TaskStore.PushLaws.{names, set_then_get, delete_then_get}
use kafka_a2a.Tests.Data.{ops, in_state, waiting}

abbrev store : InMemoryTaskStore
store = run ops empty

run-IsWellFormed_example : IsWellFormed (run ops empty)
run-IsWellFormed_example = run-IsWellFormed ops empty IsWellFormed-empty

no_future : HasNoFuture (run ops empty)
no_future = run-HasNoFuture ops empty HasNoFuture-empty

-- a reader that replays four records and then finds one more
abbrev moves : List Move
moves = turns 2 ++ (call (status "task" (in_state working)) ∷ turns 4)

abbrev played : Reader × InMemoryTaskStore
played = play moves (iter_events "task" true none store)

spared : All (Spares "task" store.next_queue) moves
spared = (tt, (tt, (tt, (tt, (tt, (tt, (tt, tt)))))))

idle : played.0.replay ≡ []
unfolding run iter_events lookup append_status append_artifact create_task insert publish play
    take_record
idle = refl

drained : played.1.queues played.0.queue ≡ []
unfolding run iter_events lookup append_status append_artifact create_task insert publish play
    take_record
drained = refl

iter_events_complete_example :
    (seen : List TaskEventRecord) × (log "task" played.1 ≡ [] ++ seen)
    × (played.0.yielded ≡ keep (is_after none) seen)
iter_events_complete_example =
    iter_events_complete "task" true none store moves no_future spared refl idle drained

reader_catches_up_example :
    (seen : List TaskEventRecord) × (log "task" played.1 ≡ [] ++ seen)
    × (log "task" (play (turns (backlog played.0 played.1)) (played.0, played.1)).1
        ≡ log "task" played.1)
    × ((play (turns (backlog played.0 played.1)) (played.0, played.1)).0.yielded
        ≡ keep (is_after none) seen)
reader_catches_up_example = reader_catches_up ops "task" true none moves spared refl

found : lookup "task" store.tasks ≡ some waiting
unfolding run lookup append_status append_artifact create_task insert publish with_status
found = refl

latest_sequence_example :
    (suc (latest_sequence "task" store) ≡ length (log "task" store))
    × (keep (is_after (some (latest_sequence "task" store))) (log "task" store) ≡ [])
latest_sequence_example = latest_sequence_lem "task" waiting store run-IsWellFormed_example found

abbrev hook : PushNotificationConfig
hook = record { id = none; url = "https://hook"; token = none; authentication = none }

set_then_get_example :
    (s' : InMemoryTaskStore) × (set_push_notification_config "task" hook store
      ≡ ok (for_task "task" hook, s'))
    × ((j key : String)
        → get_push_notification_config j (some key) s' ≡ (
            if "task" == j && "default" == key
            then some (for_task "task" hook)
            else get_push_notification_config j (some key) store))
set_then_get_example = set_then_get "task" hook store waiting found

delete_then_get_example :
    get_push_notification_config "task"
      (some "default")
      (delete_push_notification_config "task" none store)
    ≡ (if "task" == "task" && names none "default"
        then none
        else get_push_notification_config "task" (some "default") store)
delete_then_get_example = delete_then_get "task" none store "task" "default"
