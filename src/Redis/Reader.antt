-- ===== src/Redis/Reader.antt =====
-- `iter_events` of the Redis store: a generator that polls the stream of a task. An XREAD waits for up
-- to `block_ms`, so it sees the keyspace at its start and at its reply. The id `$` stands for the last
-- entry that the stream has at the start.
use kafka_a2a.Common.{
  ℕ, String, Bool, true, Option, none, some, List, [], ◌∷◌, ◌++◌, if◌then◌else◌, not, leb,
}
use kafka_a2a.Common.Lists.{get_last?}
use kafka_a2a.Redis.Server.{RedisServer, StreamEntry, stream_of}
use kafka_a2a.Redis.Json.{Json}
use kafka_a2a.Redis.Keys.{events_key}
use kafka_a2a.Redis.Store.{StoredRecord, read_entry}

-- the `last_id` of the loop
pub data LastId : Type 0 where
  entry_id : ℕ → LastId
  dollar : LastId

pub record Reader : Type 0 where
  pub task_id : String
  pub last_id : LastId
  pub after_sequence : Option ℕ
  pub yielded : List StoredRecord

unfoldable pub iter_events : String → Bool → Option ℕ → Reader
iter_events task_id replay_history after_sequence = record {
  task_id = task_id;
  last_id = if replay_history then entry_id 0 else dollar;
  after_sequence = after_sequence;
  yielded = [];
}

-- `after_sequence is not None and seq <= after_sequence` skips the record
unfoldable pub is_after : Option ℕ → StoredRecord → Bool
is_after none r = true
is_after (some n) r = not (leb r.sequence n)

-- what an entry adds to what is yielded: nothing where it cannot be read, or is skipped
unfoldable pub yield_entry : Json → StreamEntry → Reader → List StoredRecord
unfolding is_after
yield_entry json e rd = elim (read_entry json e.fields) [
  | none ↦ rd.yielded
  | some r ↦ if is_after rd.after_sequence r then rd.yielded ++ r ∷ [] else rd.yielded
]

unfoldable pub take_entries : Json → List StreamEntry → Reader → Reader
unfolding yield_entry
take_entries json [] rd = rd
take_entries json (e ∷ es) rd =
    take_entries json es
      (record rd { last_id = entry_id e.entry_id; yielded = yield_entry json e rd })

-- the id of the last entry of a stream, or 0
unfoldable pub last_of : List StreamEntry → ℕ
last_of entries = elim (get_last? entries) [ none ↦ 0 | some e ↦ e.entry_id ]

abbrev pub stream_or_empty : Option (List StreamEntry) → List StreamEntry
stream_or_empty none = []
stream_or_empty (some entries) = entries

module _ (R : RedisServer) (json : Json) (namespace : String) (read_count : ℕ) where
  -- the entry id behind which an XREAD that starts now reads
  abbrev pub read_from : LastId → String → R.Db → ℕ
  read_from (entry_id n) task_id db = n
  read_from dollar task_id db =
      last_of (stream_or_empty (stream_of (R.entry (events_key namespace task_id) db)))

  -- one turn of the loop: XREAD from `start` to its reply at `reply`, and the entries of the reply
  unfoldable pub poll : Reader → R.Db → R.Db → Reader
  unfolding take_entries
  poll rd start reply =
      take_entries json
        (R.xread (events_key namespace rd.task_id) (read_from rd.last_id rd.task_id start)
          read_count reply)
        rd

  -- the turns of the loop, each with the keyspace at its start and its reply
  unfoldable pub polls : List (R.Db × R.Db) → Reader → Reader
  unfolding poll
  polls [] rd = rd
  polls ((start, reply) ∷ rest) rd = polls rest (poll rd start reply)
