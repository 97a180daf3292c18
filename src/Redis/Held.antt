-- ===== src/Redis/Held.antt =====
-- How the keyspace holds a task: its snapshot, its number, its stream; and that a write for one task
-- leaves every other as it was.
use kafka_a2a.Common.{
  ℕ, suc, String, ◌≡◌, ◌≢◌, ◌==◌, refl, sym, ap, ◌∙◌, some, List, [], ◌∷◌, ◌++◌, ok, arith,
}
use mathlib.Core.Bool.{false≢true}
use mathlib.Core.List.{map}
use mathlib.Core.Path.{subst}
use kafka_a2a.Common.Lists.{get_last?-append}
use kafka_a2a.Common.Text.{decimal}
use kafka_a2a.Models.{Task}
use kafka_a2a.TaskStore.State.{TaskEventRecord}
use kafka_a2a.TaskStore.Append.{next_sequence}
use kafka_a2a.Redis.Server.{RedisServer, StreamEntry, text, stream, stream_of}
use kafka_a2a.Redis.Json.{Json, TaskSurvives}
use kafka_a2a.Redis.Keys.{
  task_key, seq_key, events_key, IsUuid, member_key, member_key-injective, task_key-member,
}
use kafka_a2a.Redis.Store.{StoredEvent, write_event, get_task, parse_task_event, event_fields}
use kafka_a2a.Redis.Events.{
  told, view?, view_event, Ascending, Ascending-append, told-append, read-event_fields,
}

module _ (R : RedisServer) (json : Json) (namespace : String) where
  pub record Held (id : String) (t : Task) (records : List TaskEventRecord) (db : R.Db)
      : Type 0 where
    pub snapshot : R.entry (task_key namespace id) db ≡ text (json.dump_task t)
    pub survives : TaskSurvives json t
    pub number : ℕ
    pub counter : R.entry (seq_key namespace id) db ≡ text (decimal number)
    pub latest : next_sequence records ≡ suc number
    pub entries : List StreamEntry
    pub events : R.entry (events_key namespace id) db ≡ stream entries
    pub ascending : Ascending 0 entries
    pub tells : map (told json) entries ≡ map some records

  -- the keyspace agrees on every key of a task
  abbrev pub Untouched : String → R.Db → R.Db → Type 0
  Untouched id db after =
      (suffix : String)
      → R.entry (member_key namespace id suffix) after ≡ R.entry (member_key namespace id suffix) db

  differs :
      (id other a b : String)
      → IsUuid id
      → IsUuid other
      → id ≢ other
      → member_key namespace id a ≢ member_key namespace other b
  differs id other a b p q ne e = ne (member_key-injective namespace id other a b p q e).0

  suffix_differs :
      (id a b : String) → IsUuid id → a ≢ b → member_key namespace id a ≢ member_key namespace id b
  suffix_differs id a b p ne e = ne (member_key-injective namespace id id a b p p e).1

  pub Untouched-Held :
      (id : String) {t : Task} {records : List TaskEventRecord} {db after : R.Db}
      → Untouched id db after
      → Held id t records db
      → Held id t records after
  unfolding seq_key events_key
  Untouched-Held id {t} {records} {db} {after} same h = record {
    snapshot =
        subst (λ k. R.entry k after ≡ R.entry k db) (sym (task_key-member namespace id)) (same "")
        ∙ h.snapshot;
    survives = h.survives;
    number = h.number;
    counter = same ":seq" ∙ h.counter;
    latest = h.latest;
    entries = h.entries;
    events = same ":events" ∙ h.events;
    ascending = h.ascending;
    tells = h.tells;
  }

  -- A held task is found.
  pub get_task-Held :
      (id : String) {t : Task} {records : List TaskEventRecord} {db : R.Db}
      → Held id t records db
      → get_task R json namespace id db ≡ ok (some t)
  unfolding get_task
  get_task-Held id {db = db} h = rw (R.get-text _ _ db h.snapshot, h.survives, get_task) refl

  pub events_ne_seq : (id : String) → IsUuid id → events_key namespace id ≢ seq_key namespace id
  unfolding events_key seq_key
  events_ne_seq id p =
      suffix_differs id ":events" ":seq" p (λ e. false≢true (ap (λ s. s == ":seq") e))

  ne_task :
      (id suffix : String)
      → IsUuid id
      → suffix ≢ ""
      → member_key namespace id suffix ≢ task_key namespace id
  ne_task id suffix p ne e = suffix_differs id suffix "" p ne (e ∙ task_key-member namespace id)

  pub events_ne_task : (id : String) → IsUuid id → events_key namespace id ≢ task_key namespace id
  unfolding events_key
  events_ne_task id p = ne_task id ":events" p (λ e. false≢true (ap (λ s. s == "") e))

  pub seq_ne_task : (id : String) → IsUuid id → seq_key namespace id ≢ task_key namespace id
  unfolding seq_key
  seq_ne_task id p = ne_task id ":seq" p (λ e. false≢true (ap (λ s. s == "") e))

  -- A task whose snapshot and number are there is held once its event is added to its stream.
  pub xadd-Held :
      (id : String) {t : Task} (raw : String) {event : StoredEvent} (n : ℕ)
      (records : List TaskEventRecord) {entries : List StreamEntry} (db : R.Db)
      → IsUuid id
      → R.entry (task_key namespace id) db ≡ text (json.dump_task t)
      → TaskSurvives json t
      → R.entry (seq_key namespace id) db ≡ text (decimal n)
      → stream_of (R.entry (events_key namespace id) db) ≡ some entries
      → Ascending 0 entries
      → map (told json) entries ≡ map some records
      → parse_task_event json raw ≡ some event
      → Held id t
          (records ++ record { sequence = n; event = view_event event } ∷ [])
          (R.xadd (events_key namespace id) (event_fields n raw) db)
  xadd-Held id raw {event} n records {entries} db uuid snapshot kept counter events ascending tells
        parsed =
      let (added, positive, older) =
        R.xadd_self (events_key namespace id) (event_fields n raw) db events in
      let r : TaskEventRecord = record { sequence = n; event = view_event event } in
      record {
        snapshot = R.xadd_ne _ _ (event_fields n raw) db (events_ne_task id uuid) ∙ snapshot;
        survives = kept;
        number = n;
        counter = R.xadd_ne _ _ (event_fields n raw) db (events_ne_seq id uuid) ∙ counter;
        latest = rw (get_last?-append records r, next_sequence) (omega arith);
        entries =
            entries
            ++ record {
              entry_id = R.next_id (events_key namespace id) db;
              fields = event_fields n raw;
            }
              ∷ [];
        events = added;
        ascending = Ascending-append 0 entries _ ascending positive older;
        tells =
            told-append json entries records _ r tells
              (ap view? (read-event_fields json n raw parsed));
      }

  -- no key of a task is one of another task
  pub apart :
      (id other suffix : String)
      → IsUuid id
      → IsUuid other
      → id ≢ other
      → (task_key namespace id ≢ member_key namespace other suffix)
        × (seq_key namespace id ≢ member_key namespace other suffix)
        × (events_key namespace id ≢ member_key namespace other suffix)
  unfolding seq_key events_key
  apart id other suffix p q ne = (
    λ e. differs id other "" suffix p q ne (sym (task_key-member namespace id) ∙ e),
    differs id other ":seq" suffix p q ne,
    differs id other ":events" suffix p q ne,
  )

  put_event : String → Task → ℕ → String → R.Db → R.Db
  put_event id t n raw db =
      R.xadd (events_key namespace id) (event_fields n raw)
        (R.set (task_key namespace id) (json.dump_task t) db)

  pub write_event-Held :
      (id : String) {t : Task} (t' : Task) (raw : String) {event : StoredEvent}
      {records : List TaskEventRecord} (db : R.Db)
      → IsUuid id
      → Held id t records db
      → TaskSurvives json t'
      → parse_task_event json raw ≡ some event
      → (after : R.Db) × (write_event R json namespace id t' raw db ≡ ok after)
        × Held id t'
            (records ++ record { sequence = next_sequence records; event = view_event event } ∷ [])
            after
        × ((other : String) → IsUuid other → id ≢ other → Untouched other db after)
  unfolding write_event put_event
  write_event-Held id t' raw {event} {records} db uuid h kept parsed =
      let (numbered, run, counted) = R.incr_self (seq_key namespace id) h.number db h.counter in
      (
        put_event id t' (suc h.number) raw numbered,
        rw (run, write_event, put_event) refl,
        subst
            (λ m.
              Held id t' (records ++ record { sequence = m; event = view_event event } ∷ [])
                (put_event id t' (suc h.number) raw numbered))
            (sym h.latest)
            (xadd-Held id raw (suc h.number) records _ uuid (R.set_self _ _ numbered) kept
              (R.set_ne _ _ _ numbered (λ e. seq_ne_task id uuid (sym e)) ∙ counted)
              (ap stream_of (
                R.set_ne _ _ _ numbered (λ e. events_ne_task id uuid (sym e))
                ∙ R.incr_ne _ _ db run (λ e. events_ne_seq id uuid (sym e))
                ∙ h.events))
              h.ascending h.tells parsed),
        λ other p ne suffix.
            let (task_apart, seq_apart, events_apart) = apart id other suffix uuid p ne in
            R.xadd_ne _ _ _ _ events_apart
            ∙ R.set_ne _ _ _ _ task_apart
            ∙ R.incr_ne _ _ db run seq_apart,
      )
