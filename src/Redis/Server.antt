-- ===== src/Redis/Server.antt =====
-- The Redis server as runtime/redis_task_store.py uses it: a keyspace of typed entries, the commands
-- that read and write it, and what the Redis documentation says of them. A pipeline with
-- `transaction=True` runs its commands as one step. A score is a number of ticks, and the id that
-- XADD gives an entry is a number, as ids of one stream only ever grow.
use kafka_a2a.Common.{
  ℕ, suc, ◌<◌, String, ◌≡◌, ◌≢◌, Bool, Option, none, some, List, [], ◌∷◌, ◌++◌, Result, ok, ltb,
  true, false, ◌↔◌, ◌==◌, if◌then◌else◌,
}
use kafka_a2a.Common.Dict.{Dict}
use kafka_a2a.Common.Lists.{All, keep, take}
use kafka_a2a.Common.Text.{decimal}

-- an entry of a stream: its id and its fields
pub record StreamEntry : Type 0 where
  pub entry_id : ℕ
  pub fields : Dict String

pub data Entry : Type 0 where
  missing : Entry
  text : String → Entry
  ranked : List String → Entry
  hash : Dict String → Entry
  stream : List StreamEntry → Entry

-- `ResponseError`: the command does not fit the type or the value of the key.
pub data ResponseError : Type 0 where
  response_error : ResponseError

-- the stream that XADD extends
abbrev pub stream_of : Entry → Option (List StreamEntry)
stream_of missing = some []
stream_of (stream entries) = some entries
stream_of _ = none

-- a hash, or what HSET makes one
abbrev pub is_hash : Entry → Bool
is_hash missing = true
is_hash (hash fields) = true
is_hash _ = false

abbrev pub Older : ℕ → StreamEntry → Type 0
Older n e = e.entry_id < n

-- the entries behind an id, in their order
abbrev pub entries_after : ℕ → List StreamEntry → List StreamEntry
entries_after last entries = keep (λ (e : StreamEntry). ltb last e.entry_id) entries

pub record RedisServer : Type 1 where
  pub Db : Type 0
  pub entry : String → Db → Entry
  pub get : String → Db → Result ResponseError (Option String)
  pub set : String → String → Db → Db
  pub incr : String → Db → Result ResponseError (ℕ × Db)
  pub zadd : String → String → ℕ → Db → Db
  pub zrange : String → Db → List String
  -- ZREVRANGE from a rank to a rank, the last included
  pub zrevrange : String → ℕ → ℕ → Db → List String
  pub exists : String → Db → Bool
  pub delete : String → Db → Db
  pub hset : String → String → String → Db → Db
  pub hget : String → String → Db → Option String
  -- HGETALL, in an order of the server's own
  pub hgetall : String → Db → Dict String
  pub hdel : String → String → Db → Db
  pub next_id : String → Db → ℕ
  pub xadd : String → Dict String → Db → Db
  -- XREAD behind an id, with the keyspace at its reply
  pub xread : String → ℕ → ℕ → Db → List StreamEntry
  pub get-missing : (k : String) (db : Db) → entry k db ≡ missing → get k db ≡ ok none
  pub get-text : (k v : String) (db : Db) → entry k db ≡ text v → get k db ≡ ok (some v)
  pub set_self : (k v : String) (db : Db) → entry k (set k v db) ≡ text v
  pub set_ne : (k j v : String) (db : Db) → k ≢ j → entry j (set k v db) ≡ entry j db
  -- INCR of a number in decimal returns the next one and stores it in decimal.
  pub incr_self :
      (k : String) (n : ℕ) (db : Db)
      → entry k db ≡ text (decimal n)
      → (after : Db) × (incr k db ≡ ok (suc n, after)) × (entry k after ≡ text (decimal (suc n)))
  pub incr_ne :
      (k j : String) {n : ℕ} {after : Db} (db : Db)
      → incr k db ≡ ok (n, after)
      → k ≢ j
      → entry j after ≡ entry j db
  pub zadd_ne :
      (k j member : String) (score : ℕ) (db : Db)
      → k ≢ j
      → entry j (zadd k member score db) ≡ entry j db
  pub xadd_self :
      (k : String) (fields : Dict String) {entries : List StreamEntry} (db : Db)
      → stream_of (entry k db) ≡ some entries
      → (entry k (xadd k fields db)
          ≡ stream (entries ++ record { entry_id = next_id k db; fields = fields } ∷ []))
        × (0 < next_id k db)
        × All (Older (next_id k db)) entries
  pub xadd_ne :
      (k j : String) (fields : Dict String) (db : Db)
      → k ≢ j
      → entry j (xadd k fields db) ≡ entry j db
  pub xread-stream :
      (k : String) (last limit : ℕ) {entries : List StreamEntry} (db : Db)
      → stream_of (entry k db) ≡ some entries
      → xread k last limit db ≡ take limit (entries_after last entries)
  pub exists_iff : (k : String) (db : Db) → (exists k db ≡ false) ↔ (entry k db ≡ missing)
  pub hget-hset :
      (k f g v : String) (db : Db)
      → is_hash (entry k db) ≡ true
      → hget k g (hset k f v db) ≡ (if f == g then some v else hget k g db)
  pub hset-is_hash :
      (k f v : String) (db : Db)
      → is_hash (entry k db) ≡ true
      → is_hash (entry k (hset k f v db)) ≡ true
  pub hget-hdel :
      (k f g : String) (db : Db)
      → is_hash (entry k db) ≡ true
      → hget k g (hdel k f db) ≡ (if f == g then none else hget k g db)
  pub hget-missing : (k g : String) (db : Db) → entry k db ≡ missing → hget k g db ≡ none
  pub delete_self : (k : String) (db : Db) → entry k (delete k db) ≡ missing
