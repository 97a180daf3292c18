-- ===== src/Common/Distinct.antt =====
-- Dicts whose keys differ: those that inserts and removals make from the empty one.
use kafka_a2a.Common.{String, ◌≡◌, refl, Bool-cases, inl, inr, none, [], ◌∷◌, ◌==◌, eq_iff, arith}
use kafka_a2a.Common.Dict.{Dict, lookup, insert, remove, lookup-insert, lookup-remove}

-- The keys of the entries differ.
abbrev pub Distinct {ℓ} : {V : Type ℓ} → Dict V → Type ℓ
Distinct [] = Unit
Distinct ((j, v) ∷ m) = (lookup j m ≡ none) × Distinct m

pub insert-Distinct {ℓ} :
    {V : Type ℓ} (k : String) (v : V) (m : Dict V) → Distinct m → Distinct (insert k v m)
unfolding insert lookup
insert-Distinct k v [] h = (refl, tt)
insert-Distinct k v ((j, w) ∷ m) h = elim (Bool-cases (j == k)) [
  | inl same ↦ rw same h
  | inr different ↦
      rw different (
        ground (arith, lookup-insert k j v m, eq_iff k j, eq_iff j k, h),
        insert-Distinct k v m h.1,
      )
]

pub remove-Distinct {ℓ} :
    {V : Type ℓ} (k : String) (m : Dict V) → Distinct m → Distinct (remove k m)
unfolding remove lookup
remove-Distinct k [] h = tt
remove-Distinct k ((j, w) ∷ m) h = elim (Bool-cases (j == k)) [
  | inl same ↦ rw same (remove-Distinct k m h.1)
  | inr different ↦ rw different (gone, remove-Distinct k m h.1)
]
  where
    gone : lookup j (remove k m) ≡ none
    gone = ground (arith, lookup-remove k j m, h)
