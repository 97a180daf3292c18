-- ===== src/Redis/Reads.antt =====
-- What the two stores read agrees.
use mathlib.Core.Path.{subst}
use kafka_a2a.Common.{
  ℕ, suc, ◌+◌, String, ◌≡◌, refl, sym, ap, ◌∙◌, Option, Option-cases, inl, inr, none, some, ok,
  arith,
}
use kafka_a2a.Common.Dict.{lookup}
use kafka_a2a.Common.Lists.{get_last?}
use kafka_a2a.Common.Numeral.{int_of}
use kafka_a2a.Models.{Task}
use kafka_a2a.TaskStore.State.{InMemoryTaskStore, TaskEventRecord}
use kafka_a2a.TaskStore.State as State
use kafka_a2a.TaskStore.Reader as Reader
use kafka_a2a.TaskStore.Log.{log}
use kafka_a2a.Redis.Server.{RedisServer}
use kafka_a2a.Redis.Json.{Json}
use kafka_a2a.Redis.Keys.{IsUuid}
use kafka_a2a.Redis.Store.{get_task, latest_sequence}
use kafka_a2a.Redis.Events.{read_number}
use kafka_a2a.Redis.Held.{Held}
use kafka_a2a.Redis.Refines.{Stands, Mirrors, Absent}
use kafka_a2a.Redis.Agrees.{get_task-absent, get_task-present}

last_number :
    (last : Option TaskEventRecord) (n : ℕ)
    → (elim last [ none ↦ 0 | some r ↦ r.sequence + 1 ]) ≡ suc n
    → (elim last [ none ↦ 0 | some r ↦ r.sequence ]) ≡ n
last_number none n e = absurd (omega arith)
last_number (some r) n e = omega arith

zero_read : int_of "0" ≡ some 0
unfolding int_of
zero_read = refl

module _ (R : RedisServer) (json : Json) (namespace : String) (id : String) (db : R.Db)
    (s : InMemoryTaskStore) where
  latest-Held :
      {t : Task}
      → Held R json namespace id t (log id s) db
      → latest_sequence R json namespace id db ≡ ok (Reader.latest_sequence id s)
  unfolding latest_sequence Reader.latest_sequence
  latest-Held h =
      rw (R.get-text _ _ db h.counter, read_number h.number, latest_sequence)
        (ap ok (sym (last_number (get_last? (log id s)) h.number h.latest)))

  latest-Absent :
      Absent R json namespace id (log id s) db
      → latest_sequence R json namespace id db ≡ ok (Reader.latest_sequence id s)
  unfolding latest_sequence Reader.latest_sequence get_last?
  latest-Absent h =
      rw
        (
          R.get-missing _ db h.no_counter,
          zero_read,
          latest_sequence,
          Reader.latest_sequence,
          h.no_records,
        )
        refl

  -- Where the keyspace holds what the in-memory store holds, `get_task` and `latest_sequence` of the
  -- two stores return the same for every id that `uuid4` can make, whether it has a task or not.
  pub reads_agree :
      IsUuid id
      → Mirrors R json namespace db s
      → (get_task R json namespace id db ≡ ok (State.get_task id s))
        × (latest_sequence R json namespace id db ≡ ok (Reader.latest_sequence id s))
  unfolding State.get_task
  reads_agree uuid mirrors = elim (Option-cases (lookup id s.tasks)) [
    | inl e ↦
        let h : Stands R json namespace id none (log id s) db =
          subst (λ o. Stands R json namespace id o (log id s) db) e (mirrors id uuid) in
        (get_task-absent R json namespace id db s uuid mirrors e ∙ ap ok (sym e), latest-Absent h)
    | inr (t, e) ↦
        let h : Stands R json namespace id (some t) (log id s) db =
          subst (λ o. Stands R json namespace id o (log id s) db) e (mirrors id uuid) in
        (get_task-present R json namespace id db s uuid mirrors e ∙ ap ok (sym e), latest-Held h)
  ]
