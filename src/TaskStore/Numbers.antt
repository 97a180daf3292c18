-- ===== src/TaskStore/Numbers.antt =====
-- The sequence numbers as a client uses them: to ask for what it has not seen.
use kafka_a2a.Common.{
  ℕ, zero, suc, ◌-◌, String, ◌≡◌, ◌≢◌, ◌<◌, sym, refl, ap, ◌∙◌, some, none, List, [], ◌∷◌, leb,
  arith, Bool-cases, inl, inr,
}
use kafka_a2a.Common.Lists.{length, keep, drop, get_last?}
use kafka_a2a.Common.Dict.{lookup}
use kafka_a2a.Models.{Task}
use kafka_a2a.TaskStore.State.{TaskEventRecord, InMemoryTaskStore}
use kafka_a2a.TaskStore.Reader.{is_after, latest_sequence}
use kafka_a2a.TaskStore.Append.{next_sequence}
use kafka_a2a.TaskStore.Log.{log, Numbered, next_sequence-Numbered, IsLogged, IsLogged-Numbered}
use kafka_a2a.TaskStore.WellFormed.{IsWellFormed, log-IsLogged}

keep_all :
    (n m : ℕ) (rs : List TaskEventRecord) → n < m → Numbered m rs → keep (is_after (some n)) rs ≡ rs
unfolding keep is_after
keep_all n m [] lt h = refl
keep_all n m (r ∷ rs) lt h = ground (arith, keep_all n (suc m) rs)

drop-nil : (n : ℕ) → ◌≡◌ {A = List TaskEventRecord} (drop n []) []
unfolding drop
drop-nil zero = refl
drop-nil (suc n) = refl

-- In a log that is numbered from `m`, the records above `n` are those behind the first `n + 1 - m`.
pub keep-after :
    (n m : ℕ) (rs : List TaskEventRecord)
    → Numbered m rs
    → keep (is_after (some n)) rs ≡ drop (suc n - m) rs
unfolding keep is_after drop
keep-after n m [] h = sym (drop-nil (suc n - m))
keep-after n m (r ∷ rs) h = elim (Bool-cases (leb m n)) [
  | inl old ↦
      let shift : suc n - m ≡ suc (suc n - suc m) = ground arith in
      rw shift (ground (arith, keep-after n (suc m) rs h.1))
  | inr new ↦
      let none_dropped : suc n - m ≡ 0 = ground arith in
      rw none_dropped (keep_all n m (r ∷ rs) (ground arith) h)
]

-- in a log with a record, the latest number is the last one
last_number :
    (rs : List TaskEventRecord)
    → length rs ≢ 0
    → next_sequence rs ≡ suc (elim (get_last? rs) [ none ↦ 0 | some r ↦ r.sequence ])
unfolding get_last?
last_number [] h = absurd (h refl)
last_number (r ∷ []) h = omega arith
last_number (r ∷ x ∷ rs) h = last_number (x ∷ rs) (omega arith)

drop-length : (rs : List TaskEventRecord) → drop (length rs) rs ≡ []
unfolding drop
drop-length [] = refl
drop-length (r ∷ rs) = drop-length rs

-- Where the store is well formed and has the task, the latest sequence number is one below the
-- number of the records, and a reader that asks for what comes after it is sent none of them.
pub latest_sequence_lem :
    (id : String) (t : Task) (s : InMemoryTaskStore)
    → IsWellFormed s
    → lookup id s.tasks ≡ some t
    → (suc (latest_sequence id s) ≡ length (log id s))
      × (keep (is_after (some (latest_sequence id s))) (log id s) ≡ [])
unfolding latest_sequence
latest_sequence_lem id t s h found = (
  counted,
  keep-after (latest_sequence id s) 0 (log id s) numbered
      ∙ ap (λ n. drop n (log id s)) (omega (arith, counted))
      ∙ drop-length (log id s),
)
  where
    agreed : IsLogged id t (log id s)
    agreed = log-IsLogged id t s h found

    numbered : Numbered 0 (log id s)
    numbered = IsLogged-Numbered agreed

    counted : suc (latest_sequence id s) ≡ length (log id s)
    counted =
        sym (last_number (log id s) (omega (arith, ap length agreed.begins)))
        ∙ next_sequence-Numbered (log id s) numbered
