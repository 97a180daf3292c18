-- ===== src/Redis/Race.antt =====
-- Two behaviours of the Redis store that the in-memory store does not have: a status that another
-- writer overwrites, and a reader that starts at `$`.
use mathlib.Core.List.{append-nil}
use mathlib.Core.Path.{subst}
use kafka_a2a.Common.{
  ℕ, String, ◌≡◌, refl, sym, ap, ◌∙◌, Option, some, List, [], ◌∷◌, ◌++◌, Result, ok, ◌>>=◌, false,
}
use kafka_a2a.Common.Lists.{All, take, take-nil}
use kafka_a2a.Models.{Task, TaskStatus, TaskStatusUpdateEvent, status_update}
use kafka_a2a.TaskStore.State.{TaskEventRecord}
use kafka_a2a.TaskStore.Append.{with_status, status_event, next_sequence}
use kafka_a2a.Redis.Server.{RedisServer, StreamEntry, stream_of, entries_after}
use kafka_a2a.Redis.Json.{Json, TaskSurvives, StatusSurvives}
use kafka_a2a.Redis.Keys.{IsUuid, events_key}
use kafka_a2a.Redis.Store.{RedisStoreError, get_task, or_key_error, write_status}
use kafka_a2a.Redis.Events.{parse-status, Ascending}
use kafka_a2a.Redis.Held.{Held, get_task-Held, write_event-Held}
use kafka_a2a.Redis.Reader.{
  Reader, last_of, poll, polls, iter_events, take_entries, stream_or_empty,
}
use kafka_a2a.Redis.Polls.{entries_after-seen}

module _ (R : RedisServer) (json : Json) (namespace : String) where
  -- two calls of `append_status` that both read the task before either writes
  unfoldable pub overlapping_status :
      String → TaskStatus → TaskStatus → R.Db → Result RedisStoreError R.Db
  unfolding get_task write_status
  overlapping_status id first second db =
      get_task R json namespace id db >>= or_key_error R json namespace id >>= λ seen_by_first.
      get_task R json namespace id db >>= or_key_error R json namespace id >>= λ seen_by_second.
      write_status R json namespace id first seen_by_first db
      >>= λ (r : TaskStatusUpdateEvent × R.Db).
          write_status R json namespace id second seen_by_second r.1
          >>= λ (r' : TaskStatusUpdateEvent × R.Db). ok r'.1

  -- the records that a log has after one more status
  abbrev pub status_record :
      Task → String → TaskStatus → List TaskEventRecord → List TaskEventRecord
  status_record t id st records =
      records
      ++ record { sequence = next_sequence records; event = status_update (status_event t id st) }
        ∷ []

  -- Where the keyspace holds a task with its log, and the values come back from their JSON: two calls
  -- of `append_status` that both read the task before either writes both succeed, the log has both
  -- status updates, but the task has only the second status, as if the first had never been there.
  pub overlapping_status_lem :
      (id : String) (t : Task) (first second : TaskStatus) (records : List TaskEventRecord)
      (db : R.Db)
      → IsUuid id
      → Held R json namespace id t records db
      → TaskSurvives json (with_status t id first)
      → StatusSurvives json (status_event t id first)
      → TaskSurvives json (with_status t id second)
      → StatusSurvives json (status_event t id second)
      → (after : R.Db) × (overlapping_status id first second db ≡ ok after)
        × (get_task R json namespace id after ≡ ok (some (with_status t id second)))
        × Held R json namespace id
            (with_status t id second)
            (status_record t id second (status_record t id first records))
            after
  unfolding overlapping_status write_status
  overlapping_status_lem id t first second records db uuid h kept₁ told₁ kept₂ told₂ =
      let (db₁, run₁, h₁, _) =
        write_event-Held R json namespace id (with_status t id first) _ db uuid h kept₁
          (parse-status json _ told₁) in
      let (db₂, run₂, h₂, _) =
        write_event-Held R json namespace id (with_status t id second) _ db₁ uuid h₁ kept₂
          (parse-status json _ told₂) in
      (
        db₂,
        rw (get_task-Held R json namespace id h, run₁, run₂, overlapping_status, write_status) refl,
        get_task-Held R json namespace id h₂,
        h₂,
      )

  module _ (read_count : ℕ) (id : String) where
    -- a poll during whose wait nothing is added to the stream of the task
    pub record Quiet (turn : R.Db × R.Db) : Type 0 where
      pub entries : List StreamEntry
      pub at_start : stream_of (R.entry (events_key namespace id) turn.0) ≡ some entries
      pub at_reply : stream_of (R.entry (events_key namespace id) turn.1) ≡ some entries
      pub ascending : Ascending 0 entries

    poll-Quiet :
        (after : Option ℕ) (turn : R.Db × R.Db)
        → Quiet turn
        → poll R json namespace read_count (iter_events id false after) turn.0 turn.1
          ≡ iter_events id false after
    unfolding poll iter_events take_entries
    poll-Quiet after (start, reply) q =
        ap (λ es. take_entries json es (iter_events id false after))
          (ap
              (λ o.
                R.xread (events_key namespace id) (last_of (stream_or_empty o)) read_count reply)
              q.at_start
            ∙ R.xread-stream (events_key namespace id) (last_of q.entries) read_count reply
                q.at_reply
            ∙ ap (take read_count) nothing_new
            ∙ take-nil read_count)
      where
        nothing_new : entries_after (last_of q.entries) q.entries ≡ []
        nothing_new =
            subst (λ l. entries_after (last_of q.entries) l ≡ []) (append-nil q.entries)
              (entries_after-seen 0 q.entries []
                (subst (Ascending 0) (sym (append-nil q.entries)) q.ascending))

    -- A reader that does not replay, polled any number of times, yields nothing if nothing is added to
    -- the stream of its task while an XREAD of its waits, however much is added between two polls.
    pub polls-Quiet :
        (after : Option ℕ) (turns : List (R.Db × R.Db))
        → All Quiet turns
        → (polls R json namespace read_count turns (iter_events id false after)).yielded ≡ []
    unfolding polls iter_events
    polls-Quiet after [] h = refl
    polls-Quiet after (turn ∷ turns) (q, h) =
        subst (λ (rd : Reader). (polls R json namespace read_count turns rd).yielded ≡ [])
          (sym (poll-Quiet after turn q)) (polls-Quiet after turns h)
