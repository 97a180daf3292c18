-- ===== src/Common/Dict.antt =====
-- A Python dict with text keys: an association list in the order of insertion. A write to a key that
-- is there keeps its place.
use kafka_a2a.Common.{
  ℕ, suc, String, ◌≡◌, refl, ◌≢◌, Bool, true, false, Option, none, some, List, [], ◌∷◌, arith, ◌==◌,
  eq_iff, eq_refl, is_some, if◌then◌else◌,
}

abbrev pub Dict {ℓ} : Type ℓ → Type ℓ
Dict V = List (String × V)

module _ {ℓ} {V : Type ℓ} where
  -- `m.get(k)`
  unfoldable pub lookup : String → Dict V → Option V
  lookup k [] = none
  lookup k ((j, v) ∷ m) = if j == k then some v else lookup k m

  -- `m[k] = v`
  unfoldable pub insert : String → V → Dict V → Dict V
  insert k v [] = (k, v) ∷ []
  insert k v ((j, w) ∷ m) = if j == k then (j, v) ∷ m else (j, w) ∷ insert k v m

  -- `m.pop(k, None)`
  unfoldable pub remove : String → Dict V → Dict V
  remove k [] = []
  remove k ((j, v) ∷ m) = let rest = remove k m in if j == k then rest else (j, v) ∷ rest

  -- `list(m.values())`
  unfoldable pub values : Dict V → List V
  values [] = []
  values ((j, v) ∷ m) = v ∷ values m

  -- `k in m`
  abbrev pub contains : String → Dict V → Bool
  contains k m = is_some (lookup k m)

  -- `not m`
  abbrev pub is_empty : Dict V → Bool
  is_empty [] = true
  is_empty (e ∷ m) = false

  pub lookup-insert :
      (key other : String) (v : V) (m : Dict V)
      → lookup other (insert key v m) ≡ (if key == other then some v else lookup other m)
  unfolding lookup insert
  lookup-insert key other v [] = refl
  lookup-insert key other v ((first, _) ∷ rest) = ground (
    arith,
    lookup-insert key other v rest,
    eq_iff first other,
    eq_iff first key,
    eq_iff key other,
  )

  pub lookup-remove :
      (k j : String) (m : Dict V) → lookup j (remove k m) ≡ (if k == j then none else lookup j m)
  unfolding lookup remove
  lookup-remove k j [] = ground arith
  lookup-remove k j ((i, w) ∷ m) =
      ground (arith, eq_iff k j, eq_iff i k, eq_iff i j, lookup-remove k j m)

  pub lookup-insert_self : (k : String) (v : V) (m : Dict V) → lookup k (insert k v m) ≡ some v
  lookup-insert_self k v m = simp (lookup-insert, eq_refl)

  pub lookup-insert_ne :
      (k j : String) (v : V) (m : Dict V) → k ≢ j → lookup j (insert k v m) ≡ lookup j m
  lookup-insert_ne k j v m h = ground (arith, lookup-insert k j v m, eq_iff k j)

pub lookup-nil {ℓ} : {V : Type ℓ} (k : String) → lookup {V = V} k [] ≡ none
unfolding lookup
lookup-nil k = refl

pub ruleset dict_laws = (lookup-insert, lookup-remove, eq_refl)
