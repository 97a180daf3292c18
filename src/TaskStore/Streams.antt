-- ===== src/TaskStore/Streams.antt =====
-- A reader of `iter_events` among the other callers of the store: from its start on, calls of the
-- store and turns of the reader follow one another in any order.
use mathlib.Core.List.{append_assoc, append-nil}
use kafka_a2a.Common.{
  ℕ, String, ◌≡◌, refl, ◌≢◌, ◌∙◌, Option, List, [], ◌∷◌, ◌++◌, nat_eq, nat_eq_refl, if◌then◌else◌,
  arith, Bool-cases, inl, inr, Option-cases,
}
use kafka_a2a.Common.Lists.{keep, keep-append, All}
use kafka_a2a.Common.Dict.{lookup}
use kafka_a2a.TaskStore.State.{TaskEventRecord, InMemoryTaskStore}
use kafka_a2a.TaskStore.Append.{
  append_status_found, append_status_missing, append_artifact_found, append_artifact_missing,
}
use kafka_a2a.TaskStore.Reader.{Reader, is_after, take_record, get_queued, advance_from, advance}
use kafka_a2a.TaskStore.Ops.{
  Op, create, status, artifact, open_queue, close_queue, set_push, delete_push, apply,
}
use kafka_a2a.TaskStore.Delivery.{
  Follows, publish-Follows, tasks-Follows, subscribe-Follows, unsubscribe-Follows, create-Follows,
  set_push-Follows, delete_push-Follows,
}

pub data Move : Type 0 where
  call : Op → Move
  turn : Move

unfoldable pub move : Move → Reader × InMemoryTaskStore → Reader × InMemoryTaskStore
unfolding apply advance_from
move (call op) (rd, s) = (rd, apply op s)
move turn (rd, s) = advance rd s

unfoldable pub play : List Move → Reader × InMemoryTaskStore → Reader × InMemoryTaskStore
unfolding move
play [] c = c
play (m ∷ ms) c = play ms (move m c)

-- What the others leave alone: a fresh task id is no id in use, and a queue is closed by the reader
-- that opened it.
abbrev pub Spares : String → ℕ → Move → Type 0
Spares id q (call (create j fresh now message context_id metadata)) = j ≢ id
Spares id q (call (close_queue j p)) = p ≢ q
Spares id q _ = Unit

module _ (rd : Reader) (skipped : List TaskEventRecord) where
  apply-Follows :
      (op : Op) (s : InMemoryTaskStore)
      → Spares rd.task_id rd.queue (call op)
      → Follows rd s skipped
      → Follows rd (apply op s) skipped
  unfolding apply
  apply-Follows (create j fresh now message context_id metadata) s ne h =
      create-Follows rd skipped j fresh now message context_id metadata s ne h
  apply-Follows (status j st) s ne h = elim (Option-cases (lookup j s.tasks)) [
    | inl e ↦ rw (append_status_missing j s st e) h
    | inr (t, e) ↦
        rw (append_status_found j s st e)
          (publish-Follows rd skipped j _ _ (tasks-Follows rd skipped _ s h))
  ]
  apply-Follows (artifact j a) s ne h = elim (Option-cases (lookup j s.tasks)) [
    | inl e ↦ rw (append_artifact_missing j s a e) h
    | inr (t, e) ↦
        rw (append_artifact_found j s a e)
          (publish-Follows rd skipped j _ _ (tasks-Follows rd skipped _ s h))
  ]
  apply-Follows (open_queue j) s ne h = subscribe-Follows rd skipped j s h
  apply-Follows (close_queue j q) s ne h = unsubscribe-Follows rd skipped j q s ne h
  apply-Follows (set_push j c) s ne h = set_push-Follows rd skipped j c s h
  apply-Follows (delete_push j c) s ne h = delete_push-Follows rd skipped j c s h

-- what taking a record does to the output
taken :
    (after : Option ℕ) (r : TaskEventRecord) (out seen : List TaskEventRecord)
    → out ≡ keep (is_after after) seen
    → (if is_after after r then out ++ r ∷ [] else out) ≡ keep (is_after after) (seen ++ r ∷ [])
unfolding keep
taken after r out seen e =
    rw (keep-append, e)
      (elim (Bool-cases (is_after after r)) [ inl p ↦ rw p | inr p ↦ rw (p, append-nil) ])

module _ (skipped : List TaskEventRecord) (rd : Reader) (s : InMemoryTaskStore)
    (h : Follows rd s skipped) where
  replay-Follows :
      (r : TaskEventRecord) (rest : List TaskEventRecord)
      → rd.replay ≡ r ∷ rest
      → Follows (record (take_record r rd) { replay = rest }) s skipped
  unfolding take_record
  replay-Follows r rest e = record {
    seen = h.seen ++ r ∷ [];
    complete = rw append_assoc (rw e at h.complete);
    output = taken rd.after_sequence r rd.yielded h.seen h.output;
    here = h.here;
    elsewhere = h.elsewhere;
    opened = h.opened;
  }

  queued-Follows :
      (r : TaskEventRecord) (rest : List TaskEventRecord)
      → rd.replay ≡ []
      → s.queues rd.queue ≡ r ∷ rest
      → Follows
          (take_record r rd)
          (record s { queues = λ p. if nat_eq rd.queue p then rest else s.queues p })
          skipped
  unfolding take_record
  queued-Follows r rest e f = record {
    seen = h.seen ++ r ∷ [];
    complete = rw (append_assoc, nat_eq_refl, e) (rw (e, f) at h.complete);
    output = taken rd.after_sequence r rd.yielded h.seen h.output;
    here = h.here;
    elsewhere = h.elsewhere;
    opened = h.opened;
  }

  get_queued-Follows :
      (records : List TaskEventRecord)
      → rd.replay ≡ []
      → s.queues rd.queue ≡ records
      → Follows (get_queued records rd s).0 (get_queued records rd s).1 skipped
  unfolding get_queued
  get_queued-Follows [] e f = h
  get_queued-Follows (r ∷ rest) e f = queued-Follows r rest e f

  advance_from-Follows :
      (records : List TaskEventRecord)
      → rd.replay ≡ records
      → Follows (advance_from records rd s).0 (advance_from records rd s).1 skipped
  unfolding advance_from
  advance_from-Follows [] e = get_queued-Follows (s.queues rd.queue) e refl
  advance_from-Follows (r ∷ rest) e = replay-Follows r rest e

-- A turn changes neither the task, the queue nor the filter of a reader.
module _ (rd : Reader) (s : InMemoryTaskStore) where
  advance_from-same :
      (records : List TaskEventRecord)
      → ((advance_from records rd s).0.task_id ≡ rd.task_id)
        × ((advance_from records rd s).0.queue ≡ rd.queue)
        × ((advance_from records rd s).0.after_sequence ≡ rd.after_sequence)
  unfolding advance_from take_record
  advance_from-same [] = ground arith
  advance_from-same (r ∷ rest) = (refl, refl, refl)

pub play-same :
    (ms : List Move) (rd : Reader) (s : InMemoryTaskStore)
    → ((play ms (rd, s)).0.task_id ≡ rd.task_id)
      × ((play ms (rd, s)).0.queue ≡ rd.queue)
      × ((play ms (rd, s)).0.after_sequence ≡ rd.after_sequence)
unfolding play
play-same [] rd s = (refl, refl, refl)
play-same (call op ∷ ms) rd s = play-same ms rd (apply op s)
play-same (turn ∷ ms) rd s =
    let (rd', s') = advance rd s in
    let later = play-same ms rd' s' in
    let now = advance_from-same rd s rd.replay in
    (later.0 ∙ now.0, later.1 ∙ now.1, later.2 ∙ now.2)

pub play-Follows :
    (skipped : List TaskEventRecord) (ms : List Move) (rd : Reader) (s : InMemoryTaskStore)
    → All (Spares rd.task_id rd.queue) ms
    → Follows rd s skipped
    → Follows (play ms (rd, s)).0 (play ms (rd, s)).1 skipped
unfolding play
play-Follows skipped [] rd s a h = h
play-Follows skipped (call op ∷ ms) rd s a h =
    play-Follows skipped ms rd (apply op s) a.1 (apply-Follows rd skipped op s a.0 h)
play-Follows skipped (turn ∷ ms) rd s a h =
    play-Follows skipped ms (advance rd s).0 (advance rd s).1
      (rw ((advance_from-same rd s rd.replay).0, (advance_from-same rd s rd.replay).1) a.1)
      (advance_from-Follows skipped rd s h rd.replay refl)
