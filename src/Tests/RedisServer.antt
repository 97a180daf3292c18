-- ===== src/Tests/RedisServer.antt =====
-- A keyspace in memory that serves as the Redis server.
use mathlib.Core.List.{reverse}
use mathlib.Core.Path.{subst}
use kafka_a2a.Common.{
  ℕ, suc, ◌+◌, ◌<◌, ◌≤◌, String, ◌≡◌, ◌≢◌, ◌==◌, ◌↔◌, eq_iff, eq_refl, refl, sym, ap, ◌∙◌, Bool,
  true, false, Option, none, some, List, [], ◌∷◌, ◌++◌, Result, ok, raise, if◌then◌else◌, arith,
}
use kafka_a2a.Common.Dict.{Dict, lookup, insert, remove, lookup-insert, lookup-remove, lookup-nil}
use kafka_a2a.Common.Lists.{All, take, drop}
use kafka_a2a.Common.Numeral.{int_of, int_of-decimal}
use kafka_a2a.Common.Text.{decimal}
use kafka_a2a.Redis.Server.{
  StreamEntry, Entry, missing, text, ranked, hash, stream, ResponseError, response_error, stream_of,
  is_hash, Older, entries_after, RedisServer,
}

abbrev pub Keyspace : Type 0
Keyspace = String → Entry

abbrev pub put : String → Entry → Keyspace → Keyspace
put k e db j = if k == j then e else db j

pub put_self : (k : String) (e : Entry) (db : Keyspace) → put k e db k ≡ e
put_self k e db = rw (eq_refl k) refl

pub put_ne : (k j : String) (e : Entry) (db : Keyspace) → k ≢ j → put k e db j ≡ db j
put_ne k j e db ne = ground (arith, eq_iff k j)

abbrev pub get_of : Entry → Result ResponseError (Option String)
get_of missing = ok none
get_of (text v) = ok (some v)
get_of _ = raise response_error

abbrev pub incr_by : Option ℕ → String → Keyspace → Result ResponseError (ℕ × Keyspace)
incr_by none k db = raise response_error
incr_by (some n) k db = ok (suc n, put k (text (decimal (suc n))) db)

abbrev pub number_of : Entry → Option ℕ
number_of missing = some 0
number_of (text v) = int_of v
number_of _ = none

abbrev pub incr_at : String → Keyspace → Result ResponseError (ℕ × Keyspace)
incr_at k db = incr_by (number_of (db k)) k db

abbrev pub members : Entry → List String
members (ranked ms) = ms
members _ = []

-- an id above all ids of a stream
abbrev pub above : List StreamEntry → ℕ
above [] = 1
above (e ∷ es) = suc (e.entry_id + above es)

Older-mono : (n m : ℕ) (es : List StreamEntry) → n ≤ m → All (Older n) es → All (Older m) es
Older-mono n m [] le h = tt
Older-mono n m (e ∷ es) le (p, h) = (omega arith, Older-mono n m es le h)

above-Older : (es : List StreamEntry) → All (Older (above es)) es
above-Older [] = tt
above-Older (e ∷ es) = (omega arith, Older-mono (above es) _ es (omega arith) (above-Older es))

above_pos : (es : List StreamEntry) → 0 < above es
above_pos [] = omega arith
above_pos (e ∷ es) = omega arith

abbrev pub entries_of : Option (List StreamEntry) → List StreamEntry
entries_of none = []
entries_of (some es) = es

abbrev pub new_id : String → Keyspace → ℕ
new_id k db = above (entries_of (stream_of (db k)))

abbrev pub extended : Option (List StreamEntry) → StreamEntry → Entry → Entry
extended none e old = old
extended (some es) e old = stream (es ++ e ∷ [])

abbrev pub xadd_at : String → Dict String → Keyspace → Keyspace
xadd_at k fields db =
    put k (extended (stream_of (db k)) (record { entry_id = new_id k db; fields = fields }) (db k))
      db

abbrev pub xread_at : String → ℕ → ℕ → Keyspace → List StreamEntry
xread_at k last limit db = take limit (entries_after last (entries_of (stream_of (db k))))

abbrev pub is_there : Entry → Bool
is_there missing = false
is_there _ = true

abbrev pub fields_in : Entry → Dict String
fields_in (hash fs) = fs
fields_in _ = []

pub incr_at_self :
    (k : String) (n : ℕ) (db : Keyspace)
    → db k ≡ text (decimal n)
    → (after : Keyspace) × (incr_at k db ≡ ok (suc n, after)) × (after k ≡ text (decimal (suc n)))
incr_at_self k n db e = (
  put k (text (decimal (suc n))) db,
  rw (e, int_of-decimal n, incr_at, number_of) refl,
  put_self k _ db,
)

abbrev after_or : Keyspace → Result ResponseError (ℕ × Keyspace) → Keyspace
after_or db (ok r) = r.1
after_or db (raise e) = db

pub incr_by_ne :
    (o : Option ℕ) (k j : String) {n : ℕ} {after : Keyspace} (db : Keyspace)
    → incr_by o k db ≡ ok (n, after)
    → k ≢ j
    → after j ≡ db j
incr_by_ne none k j db e ne = absurd cc
incr_by_ne (some m) k j db e ne = sym (ap (λ r. after_or db r j) e) ∙ put_ne k j _ db ne

pub xadd_at_self :
    (k : String) (fields : Dict String) {entries : List StreamEntry} (db : Keyspace)
    → stream_of (db k) ≡ some entries
    → (xadd_at k fields db k
        ≡ stream (entries ++ record { entry_id = new_id k db; fields = fields } ∷ []))
      × (0 < new_id k db)
      × All (Older (new_id k db)) entries
xadd_at_self k fields {entries} db e = (
  put_self k _ db
      ∙ ap (λ o. extended o (record { entry_id = new_id k db; fields = fields }) (db k)) e,
  above_pos _,
  subst (λ o. All (Older (above (entries_of o))) entries) (sym e) (above-Older entries),
)

pub there_iff : (e : Entry) → (is_there e ≡ false) ↔ (e ≡ missing)
there_iff missing = (λ h. refl, λ h. refl)
there_iff (text v) = (λ h. absurd cc, ap is_there)
there_iff (ranked ms) = (λ h. absurd cc, ap is_there)
there_iff (hash fs) = (λ h. absurd cc, ap is_there)
there_iff (stream es) = (λ h. absurd cc, ap is_there)

abbrev pub server : RedisServer
server = record {
  Db = Keyspace;
  entry = λ k db. db k;
  get = λ k db. get_of (db k);
  set = λ k v db. put k (text v) db;
  incr = incr_at;
  zadd = λ k member score db. put k (ranked (members (db k) ++ member ∷ [])) db;
  zrange = λ k db. members (db k);
  zrevrange = λ k first last db. take (suc last) (drop first (reverse (members (db k))));
  exists = λ k db. is_there (db k);
  delete = λ k db. put k missing db;
  hset = λ k f v db. put k (hash (insert f v (fields_in (db k)))) db;
  hget = λ k f db. lookup f (fields_in (db k));
  hgetall = λ k db. fields_in (db k);
  hdel = λ k f db. put k (hash (remove f (fields_in (db k)))) db;
  next_id = new_id;
  xadd = xadd_at;
  xread = xread_at;
  get-missing = λ k db e. rw (e, get_of) refl;
  get-text = λ k v db e. rw (e, get_of) refl;
  set_self = λ k v db. put_self k (text v) db;
  set_ne = λ k j v db ne. put_ne k j (text v) db ne;
  incr_self = incr_at_self;
  incr_ne = λ k j db e ne. incr_by_ne _ k j db e ne;
  zadd_ne = λ k j member score db ne. put_ne k j _ db ne;
  xadd_self = xadd_at_self;
  xadd_ne = λ k j fields db ne. put_ne k j _ db ne;
  xread-stream = λ k last limit db e. ap (λ o. take limit (entries_after last (entries_of o))) e;
  exists_iff = λ k db. there_iff (db k);
  hget-hset =
      λ k f g v db h. ap (λ en. lookup g (fields_in en)) (put_self k _ db) ∙ lookup-insert f g v _;
  hset-is_hash = λ k f v db h. ap is_hash (put_self k _ db);
  hget-hdel =
      λ k f g db h. ap (λ en. lookup g (fields_in en)) (put_self k _ db) ∙ lookup-remove f g _;
  hget-missing = λ k g db e. ap (λ en. lookup g (fields_in en)) e ∙ lookup-nil g;
  delete_self = λ k db. put_self k missing db;
}
