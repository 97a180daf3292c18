-- ===== src/TaskStore/Queues.antt =====
-- Where a queue is subscribed: how often it stands in a list of subscribers, and what a fan-out puts
-- into it.
use kafka_a2a.Common.{
  ℕ, zero, suc, ◌+◌, ◌≤◌, String, ◌≡◌, refl, ◌≢◌, ◌∙◌, Bool, true, false, some, List, [], ◌∷◌, ◌++◌,
  ◌==◌, eq_iff, nat_eq, if◌then◌else◌, get_or, arith, Bool-cases, inl, inr,
}
use mathlib.Core.List.{append-nil, append_assoc}
use kafka_a2a.Common.Dict.{Dict, lookup, insert, lookup-insert}
use kafka_a2a.TaskStore.State.{TaskEventRecord, set_default}
use kafka_a2a.TaskStore.Append.{enqueue, put_all}
use kafka_a2a.TaskStore.Reader.{remove_queue}

-- how often the queue stands in the list
unfoldable pub count : ℕ → List ℕ → ℕ
count q [] = 0
count q (p ∷ ps) = let rest = count q ps in if nat_eq p q then suc rest else rest

pub count-append : (q : ℕ) (ps rs : List ℕ) → count q (ps ++ rs) ≡ count q ps + count q rs
unfolding count
count-append q [] rs = omega arith
count-append q (p ∷ ps) rs = ground (arith, count-append q ps rs)

pub count-remove_queue_ne :
    (q p : ℕ) (ps : List ℕ) → p ≢ q → count q (remove_queue p ps) ≡ count q ps
unfolding count remove_queue
count-remove_queue_ne q p [] h = refl
count-remove_queue_ne q p (x ∷ ps) h = ground (arith, count-remove_queue_ne q p ps h)

pub count-remove_queue-le : (q p : ℕ) (ps : List ℕ) → count q (remove_queue p ps) ≤ count q ps
unfolding count remove_queue
count-remove_queue-le q p [] = omega arith
count-remove_queue-le q p (x ∷ ps) = ground (arith, count-remove_queue-le q p ps)

-- `n` copies
unfoldable pub copies : ℕ → TaskEventRecord → List TaskEventRecord
copies zero r = []
copies (suc n) r = r ∷ copies n r

-- A fan-out puts the record into a queue as often as the queue is subscribed.
pub put_all-count :
    (qs : List ℕ) (r : TaskEventRecord) (queues : ℕ → List TaskEventRecord) (q : ℕ)
    → put_all qs r queues q ≡ queues q ++ copies (count q qs) r
unfolding put_all enqueue count copies
put_all-count [] r queues q = simp append-nil
put_all-count (p ∷ ps) r queues q =
    put_all-count ps r (enqueue p r queues) q ∙ step (nat_eq p q) refl
  where
    step :
        (b : Bool)
        → nat_eq p q ≡ b
        → enqueue p r queues q ++ copies (count q ps) r
          ≡ queues q ++ copies (if b then suc (count q ps) else count q ps) r
    step true e = rw e (append_assoc (queues q) (r ∷ []) (copies (count q ps) r))
    step false e = rw e

-- the subscribers of a task
abbrev pub subscribed : String → Dict (List ℕ) → List ℕ
subscribed id m = get_or (lookup id m) []

pub subscribed-insert :
    (id j : String) (qs : List ℕ) (m : Dict (List ℕ))
    → subscribed j (insert id qs m) ≡ (if id == j then qs else subscribed j m)
subscribed-insert id j qs m = ground (arith, lookup-insert id j qs m)

pub subscribed-set_default :
    (id j : String) (m : Dict (List ℕ)) → subscribed j (set_default id [] m) ≡ subscribed j m
unfolding set_default
subscribed-set_default id j m = ground (arith, lookup-insert id j [] m, eq_iff id j)

-- A queue keeps its places where another one is added or removed.
module _ (id j : String) (q n : ℕ) (m : Dict (List ℕ)) (ne : n ≢ q) where
  pub count-add_ne :
      count q (subscribed j (insert id (subscribed id m ++ n ∷ []) m)) ≡ count q (subscribed j m)
  unfolding count
  count-add_ne = rw subscribed-insert (elim (Bool-cases (id == j)) [
    | inl e ↦ rw (e, count-append, ← (eq_iff id j).0 e) (ground arith)
    | inr e ↦ rw e
  ])

  pub count-drop_ne :
      (qs : List ℕ)
      → lookup id m ≡ some qs
      → count q (subscribed j (insert id (remove_queue n qs) m)) ≡ count q (subscribed j m)
  count-drop_ne qs found = rw subscribed-insert (elim (Bool-cases (id == j)) [
    | inl e ↦ rw (e, ← (eq_iff id j).0 e, found) (count-remove_queue_ne q n qs ne)
    | inr e ↦ rw e
  ])
