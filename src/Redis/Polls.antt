-- ===== src/Redis/Polls.antt =====
-- What `iter_events` of the Redis store yields.
use mathlib.Core.List.{append-nil, append_assoc}
use mathlib.Core.Path.{subst}
use kafka_a2a.Common.{
  ℕ, ◌<◌, ◌≤◌, ltb, String, ◌≡◌, refl, sym, ap, ◌∙◌, true, false, Option, none, some, List, [], ◌∷◌,
  ◌++◌, Option-cases, inl, inr, arith, if◌then◌else◌, Bool-cases,
}
use kafka_a2a.Common.Lists.{
  keep, take, drop, take-drop, none_taken, get_last?, keep-append, get_last?-append,
}
use kafka_a2a.Redis.Server.{RedisServer, StreamEntry, stream_of, entries_after}
use kafka_a2a.Redis.Json.{Json}
use kafka_a2a.Redis.Keys.{events_key}
use kafka_a2a.Redis.Store.{StoredRecord, read_entry}
use kafka_a2a.Redis.Events.{Ascending}
use kafka_a2a.Redis.Reader.{
  Reader, read_from, entry_id, is_after, yield_entry, take_entries, last_of, poll, polls,
  iter_events,
}

-- the records of the entries that can be read, in their order
abbrev pub readable : Json → List StreamEntry → List StoredRecord
readable json [] = []
readable json (e ∷ es) = elim (read_entry json e.fields) [
  | none ↦ readable json es
  | some r ↦ r ∷ readable json es
]

readable-append :
    (json : Json) (es fs : List StreamEntry)
    → readable json (es ++ fs) ≡ readable json es ++ readable json fs
readable-append json [] fs = refl
readable-append json (e ∷ es) fs = elim (Option-cases (read_entry json e.fields)) [
  | inl h ↦ rw (h, readable) (readable-append json es fs)
  | inr (r, h) ↦ rw (h, readable) (ap (λ l. r ∷ l) (readable-append json es fs))
]

-- A reader that has taken these entries, from the first one on.
pub record HasRead (json : Json) (id : String) (after : Option ℕ) (seen : List StreamEntry)
    (rd : Reader) : Type 0 where
  pub reads : rd.task_id ≡ id
  pub asks : rd.after_sequence ≡ after
  pub stands : rd.last_id ≡ entry_id (last_of seen)
  pub output : rd.yielded ≡ keep (is_after after) (readable json seen)

module _ (json : Json) (id : String) (after : Option ℕ) where
  yield-HasRead :
      (seen : List StreamEntry) (e : StreamEntry) (rd : Reader)
      → HasRead json id after seen rd
      → yield_entry json e rd ≡ keep (is_after after) (readable json (seen ++ e ∷ []))
  unfolding yield_entry keep
  yield-HasRead seen e rd h =
      rw
        (
          readable-append json seen (e ∷ []),
          keep-append (is_after after) (readable json seen) (readable json (e ∷ [])),
        )
        (one_more (read_entry json e.fields))
    where
      one_more :
          (read : Option StoredRecord)
          → (elim read [
            | none ↦ rd.yielded
            | some r ↦ if is_after rd.after_sequence r then rd.yielded ++ r ∷ [] else rd.yielded
          ])
            ≡ keep (is_after after) (readable json seen)
              ++ keep (is_after after) (elim read [ none ↦ [] | some r ↦ r ∷ [] ])
      one_more none = h.output ∙ sym (append-nil _)
      one_more (some r) = elim (Bool-cases (is_after after r)) [
        | inl e ↦ rw (h.asks, e, h.output) refl
        | inr e ↦ rw (h.asks, e, h.output) (sym (append-nil _))
      ]

  take_entries-HasRead :
      (seen es : List StreamEntry) (rd : Reader)
      → HasRead json id after seen rd
      → HasRead json id after (seen ++ es) (take_entries json es rd)
  unfolding take_entries last_of
  take_entries-HasRead seen [] rd h = rw (append-nil seen) h
  take_entries-HasRead seen (e ∷ es) rd h =
      subst (λ l. HasRead json id after l (take_entries json (e ∷ es) rd))
        (append_assoc seen (e ∷ []) es)
        (take_entries-HasRead (seen ++ e ∷ []) es _ (record {
          reads = h.reads;
          asks = h.asks;
          stands = rw (get_last?-append seen e, last_of) refl;
          output = yield-HasRead seen e rd h;
        }))

-- Behind the last entry of an initial part comes the rest.
none_before : (n m : ℕ) (es : List StreamEntry) → n ≤ m → Ascending m es → entries_after n es ≡ es
unfolding keep
none_before n m [] le h = refl
none_before n m (e ∷ es) le h = ground (arith, none_before n e.entry_id es)

last_above :
    (n : ℕ) (e : StreamEntry) (seen more : List StreamEntry)
    → Ascending n (e ∷ seen ++ more)
    → n < last_of (e ∷ seen)
unfolding last_of get_last?
last_above n e [] more h = h.0
last_above n e (x ∷ seen) more h = omega (arith, h.0, last_above e.entry_id x seen more h.1)

pub entries_after-seen :
    (n : ℕ) (seen more : List StreamEntry)
    → Ascending n (seen ++ more)
    → entries_after (last_of seen) (seen ++ more) ≡ more
unfolding keep last_of get_last?
entries_after-seen n [] more h = none_before 0 n more (omega arith) h
entries_after-seen n (x ∷ []) more h =
    ground (arith, none_before x.entry_id x.entry_id more (omega arith) h.1)
entries_after-seen n (x ∷ y ∷ seen) more h =
    let above : x.entry_id < last_of (y ∷ seen) = last_above x.entry_id y seen more h.1 in
    let rest : entries_after (last_of (y ∷ seen)) (y ∷ seen ++ more) ≡ more =
      entries_after-seen x.entry_id (y ∷ seen) more h.1 in
    let skipped : ltb (last_of (y ∷ seen)) x.entry_id ≡ false = ground (arith, above) in
    rw skipped rest

module _ (R : RedisServer) (json : Json) (namespace : String) (read_count : ℕ) (id : String)
    (after : Option ℕ) where
  -- the stream of the task holds these entries
  abbrev pub Streams : R.Db → List StreamEntry → Type 0
  Streams db entries = stream_of (R.entry (events_key namespace id) db) ≡ some entries

  -- the reply to the XREAD of a poll
  unfoldable pub answer : Reader → R.Db → R.Db → List StreamEntry
  answer rd start reply =
      R.xread (events_key namespace rd.task_id)
        (read_from R json namespace read_count rd.last_id rd.task_id start) read_count reply

  answered :
      (seen more : List StreamEntry) (rd : Reader) (start reply : R.Db)
      → HasRead json id after seen rd
      → Streams reply (seen ++ more)
      → Ascending 0 (seen ++ more)
      → answer rd start reply ≡ take read_count more
  unfolding answer
  answered seen more rd start reply h streams ascending =
      rw (h.stands, h.reads, answer)
        (R.xread-stream (events_key namespace id) (last_of seen) read_count reply streams
          ∙ ap (take read_count) (entries_after-seen 0 seen more ascending))

  poll-HasRead :
      (seen more : List StreamEntry) (rd : Reader) (start reply : R.Db)
      → HasRead json id after seen rd
      → Streams reply (seen ++ more)
      → Ascending 0 (seen ++ more)
      → HasRead json id after
          (seen ++ take read_count more)
          (poll R json namespace read_count rd start reply)
  unfolding poll answer
  poll-HasRead seen more rd start reply h streams ascending =
      subst (λ es. HasRead json id after (seen ++ take read_count more) (take_entries json es rd))
        (sym (answered seen more rd start reply h streams ascending))
        (take_entries-HasRead json id after seen (take read_count more) rd h)

  -- The stream of the task only grows from poll to poll: from what it holds at first to what it holds
  -- at the last reply.
  pub data Growth : List StreamEntry → List (R.Db × R.Db) → List StreamEntry → Type 0 where
    idle : {es : List StreamEntry} → Growth es [] es
    grows :
        {es last : List StreamEntry} (added : List StreamEntry) (start reply : R.Db)
        {rest : List (R.Db × R.Db)}
        → Streams reply (es ++ added)
        → Ascending 0 (es ++ added)
        → Growth (es ++ added) rest last
        → Growth es ((start, reply) ∷ rest) last

  -- some of the entries are read and the rest is to come
  polls-HasRead :
      (seen more last : List StreamEntry) (turns : List (R.Db × R.Db)) (rd : Reader)
      → HasRead json id after seen rd
      → Growth (seen ++ more) turns last
      → (read : List StreamEntry) × (rest : List StreamEntry) × (last ≡ read ++ rest)
        × HasRead json id after read (polls R json namespace read_count turns rd)
  unfolding polls
  polls-HasRead seen more last [] rd h idle = (seen, more, refl, h)
  polls-HasRead seen more last (_ ∷ turns) rd h (grows added start reply streams ascending growth) =
      polls-HasRead (seen ++ take read_count (more ++ added)) (drop read_count (more ++ added)) last
        turns (poll R json namespace read_count rd start reply)
        (poll-HasRead seen (more ++ added) rd start reply h
          (streams ∙ ap (λ l. some l) (append_assoc seen more added))
          (subst (Ascending 0) (append_assoc seen more added) ascending))
        (subst (λ l. Growth l turns last) regroup growth)
    where
      regroup :
          (seen ++ more) ++ added
          ≡ (seen ++ take read_count (more ++ added)) ++ drop read_count (more ++ added)
      regroup =
          append_assoc seen more added
          ∙ ap (λ l. seen ++ l) (sym (take-drop read_count (more ++ added)))
          ∙ sym (append_assoc seen _ _)

  -- A reader of the Redis store that replays, after any polls while the stream of its task only grows,
  -- and at a further poll whose XREAD returns nothing, has yielded the records of every readable
  -- entry of the stream whose number is above `after_sequence`, each once and in the order of the
  -- stream. XREAD is asked for at least one entry.
  pub polls_complete :
      (turns : List (R.Db × R.Db)) {last : List StreamEntry} (start reply : R.Db)
      → 0 < read_count
      → Growth [] turns last
      → Streams reply last
      → Ascending 0 last
      → answer (polls R json namespace read_count turns (iter_events id true after)) start reply
        ≡ []
      → (polls R json namespace read_count turns (iter_events id true after)).yielded
        ≡ keep (is_after after) (readable json last)
  unfolding iter_events last_of get_last? keep
  polls_complete turns {last} start reply positive growth streams ascending idle_reply =
      let (seen, rest, parts, h) =
        polls-HasRead [] [] last turns (iter_events id true after)
          (record { reads = refl; asks = refl; stands = refl; output = refl }) growth in
      let nothing : rest ≡ [] = none_taken read_count rest positive (
        sym (
          answered seen rest _ start reply h (streams ∙ ap (λ l. some l) parts)
            (subst (Ascending 0) parts ascending))
        ∙ idle_reply) in
      h.output
      ∙ ap (λ l. keep (is_after after) (readable json l))
          (sym (parts ∙ ap (λ l. seen ++ l) nothing ∙ append-nil seen))
