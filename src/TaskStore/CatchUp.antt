-- ===== src/TaskStore/CatchUp.antt =====
-- A reader of `iter_events` that goes on comes to the end of the log.
use kafka_a2a.Common.{
  ℕ, zero, suc, ◌+◌, String, ◌≡◌, refl, sym, ap, ◌∙◌, Bool, ◌++◌, if◌then◌else◌, Option, List, [],
  ◌∷◌, arith,
}
use kafka_a2a.Common.Lists.{length, keep, All, All-append}
use kafka_a2a.TaskStore.State.{TaskEventRecord, InMemoryTaskStore, empty}
use kafka_a2a.TaskStore.Reader.{Reader, is_after, iter_events, advance, advance_from, get_queued}
use kafka_a2a.TaskStore.Ops.{Op, run}
use kafka_a2a.TaskStore.Streams.{Move, move, Spares, play}
use kafka_a2a.TaskStore.Log.{log}
use kafka_a2a.TaskStore.Complete.{iter_events_complete}
use kafka_a2a.TaskStore.Drain.{turns, backlog, turns_drain, HasNoFuture-empty, run-HasNoFuture}

-- Turns of a reader leave the logs.
advance-log :
    (j : String) (rd : Reader) (s : InMemoryTaskStore) (replay queued : List TaskEventRecord)
    → rd.replay ≡ replay
    → s.queues rd.queue ≡ queued
    → log j (advance rd s).1 ≡ log j s
unfolding advance_from get_queued
advance-log j rd s [] [] e f = rw (e, f) refl
advance-log j rd s [] (r ∷ rest) e f = rw (e, f) refl
advance-log j rd s (r ∷ rest) queued e f = rw e refl

turns-log :
    (j : String) (n : ℕ) (rd : Reader) (s : InMemoryTaskStore)
    → log j (play (turns n) (rd, s)).1 ≡ log j s
unfolding play
turns-log j zero rd s = refl
turns-log j (suc n) rd s =
    turns-log j n (advance rd s).0 (advance rd s).1
    ∙ advance-log j rd s rd.replay (s.queues rd.queue) refl refl

play-append :
    (before after : List Move) (c : Reader × InMemoryTaskStore)
    → play (before ++ after) c ≡ play after (play before c)
unfolding play
play-append [] after c = refl
play-append (m ∷ before) after c = play-append before after (move m c)

spared_turns : (id : String) (q n : ℕ) → All (Spares id q) (turns n)
spared_turns id q zero = tt
spared_turns id q (suc n) = (tt, spared_turns id q n)

nothing_left : (xs ys : List TaskEventRecord) → length xs + length ys ≡ 0 → (xs ≡ []) × (ys ≡ [])
nothing_left [] [] h = (refl, refl)
nothing_left [] (y ∷ ys) h = absurd (omega arith)
nothing_left (x ∷ xs) ys h = absurd (omega arith)

-- Take any calls of the store, from an empty one, and then the start of an `iter_events`, followed by
-- any calls of the store and any turns of the reader of which none reuses its task's id or closes its
-- queue. As many further turns as the reader has records to replay and in its queue bring it to the end
-- of the log: the log of its task, which these turns leave, is the log at the start, or nothing if that
-- was replayed, followed by records of which the reader has then yielded exactly those whose number is
-- above `after_sequence`, each once and in the order of the log.
pub reader_catches_up :
    (ops : List Op) (id : String) (replay_history : Bool) (after : Option ℕ) (moves : List Move)
    {rd : Reader} {s : InMemoryTaskStore}
    → All (Spares id (run ops empty).next_queue) moves
    → play moves (iter_events id replay_history after (run ops empty)) ≡ (rd, s)
    → (seen : List TaskEventRecord) × (log id s
        ≡ (if replay_history then [] else log id (run ops empty)) ++ seen)
      × (log id (play (turns (backlog rd s)) (rd, s)).1 ≡ log id s)
      × ((play (turns (backlog rd s)) (rd, s)).0.yielded ≡ keep (is_after after) seen)
reader_catches_up ops id replay_history after moves {rd} {s} spares played =
    (done.0, sym kept ∙ done.1, kept, done.2)
  where
    start : InMemoryTaskStore
    start = run ops empty

    n : ℕ
    n = backlog rd s

    kept : log id (play (turns n) (rd, s)).1 ≡ log id s
    kept = turns-log id n rd s

    waits :
        ((play (turns n) (rd, s)).0.replay ≡ [])
        × ((play (turns n) (rd, s)).1.queues (play (turns n) (rd, s)).0.queue ≡ [])
    waits = nothing_left _ _ (turns_drain n rd s refl)

    done :
        (seen : List TaskEventRecord) × (log id (play (turns n) (rd, s)).1
          ≡ (if replay_history then [] else log id start) ++ seen)
        × ((play (turns n) (rd, s)).0.yielded ≡ keep (is_after after) seen)
    done =
        iter_events_complete id replay_history after start (moves ++ turns n)
          (run-HasNoFuture ops empty HasNoFuture-empty)
          (All-append (Spares id start.next_queue) moves (turns n) spares
            (spared_turns id start.next_queue n))
          (play-append moves (turns n) (iter_events id replay_history after start)
            ∙ ap (play (turns n)) played)
          waits.0 waits.1
