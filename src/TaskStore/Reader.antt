-- ===== src/TaskStore/Reader.antt =====
-- Subscriptions, and `iter_events`: a generator that subscribes, replays what it found, and then
-- takes records from its queue.
use kafka_a2a.Common.{
  ℕ, ◌+◌, String, Bool, true, Option, none, some, List, [], ◌∷◌, ◌++◌, not, nat_eq, leb,
  if◌then◌else◌, get_or,
}
use kafka_a2a.Common.Lists.{get_last?}
use kafka_a2a.Common.Dict.{lookup, insert}
use kafka_a2a.TaskStore.State.{TaskEventRecord, InMemoryTaskStore}

-- The new queue and the history, read in the same step.
unfoldable pub subscribe :
    String → InMemoryTaskStore → (ℕ × List TaskEventRecord) × InMemoryTaskStore
subscribe task_id s = (
  (s.next_queue, get_or (lookup task_id s.events) []),
  record s {
    subscribers =
        insert task_id (get_or (lookup task_id s.subscribers) [] ++ s.next_queue ∷ [])
          s.subscribers;
    queues = λ p. if nat_eq s.next_queue p then [] else s.queues p;
    next_queue = s.next_queue + 1;
  },
)

-- `queues.remove(queue)`, where a queue that is not there is ignored
unfoldable pub remove_queue : ℕ → List ℕ → List ℕ
remove_queue q [] = []
remove_queue q (p ∷ ps) = let rest = remove_queue q ps in if nat_eq q p then ps else p ∷ rest

unfoldable pub unsubscribe : String → ℕ → InMemoryTaskStore → InMemoryTaskStore
unfolding remove_queue
unsubscribe task_id q s = elim (lookup task_id s.subscribers) [
  | none ↦ s
  | some qs ↦ record s { subscribers = insert task_id (remove_queue q qs) s.subscribers }
]

unfoldable pub latest_sequence : String → InMemoryTaskStore → ℕ
latest_sequence task_id s = elim (get_last? (get_or (lookup task_id s.events) [])) [
  | none ↦ 0
  | some r ↦ r.sequence
]

-- the records that `after_sequence` lets through
unfoldable pub is_after : Option ℕ → TaskEventRecord → Bool
is_after none r = true
is_after (some n) r = not (leb r.sequence n)

-- An `iter_events` that runs: the rest of its replay, its queue, and what it has yielded.
pub record Reader : Type 0 where
  pub task_id : String
  pub queue : ℕ
  pub replay : List TaskEventRecord
  pub after_sequence : Option ℕ
  pub yielded : List TaskEventRecord

unfoldable pub iter_events :
    String → Bool → Option ℕ → InMemoryTaskStore → Reader × InMemoryTaskStore
unfolding subscribe
iter_events task_id replay_history after_sequence s =
    let (opened, s') = subscribe task_id s in
    (
      record {
        task_id = task_id;
        queue = opened.0;
        replay = if replay_history then opened.1 else [];
        after_sequence = after_sequence;
        yielded = [];
      },
      s',
    )

-- one record of the loops: it is yielded, or skipped
unfoldable pub take_record : TaskEventRecord → Reader → Reader
take_record r rd = record rd {
  yielded = if is_after rd.after_sequence r then rd.yielded ++ r ∷ [] else rd.yielded;
}

-- the waiting `queue.get()`: the reader stays where it is while its queue is empty
unfoldable pub get_queued :
    List TaskEventRecord → Reader → InMemoryTaskStore → Reader × InMemoryTaskStore
get_queued [] rd s = (rd, s)
get_queued (r ∷ rest) rd s =
    (take_record r rd, record s { queues = λ p. if nat_eq rd.queue p then rest else s.queues p })

-- one turn of the loop that the reader stands in
unfoldable pub advance_from :
    List TaskEventRecord → Reader → InMemoryTaskStore → Reader × InMemoryTaskStore
unfolding get_queued
advance_from [] rd s = get_queued (s.queues rd.queue) rd s
advance_from (r ∷ rest) rd s = (record (take_record r rd) { replay = rest }, s)

abbrev pub advance : Reader → InMemoryTaskStore → Reader × InMemoryTaskStore
advance rd s = advance_from rd.replay rd s
