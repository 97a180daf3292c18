-- ===== src/Common/Lists.antt =====
-- Lists measured by native numbers, and Python's reads and slices of a list.
use kafka_a2a.Common.{
  ℕ, zero, suc, String, false, ◌==◌, ◌||◌, ◌+◌, ◌≤◌, ◌<◌, ap, ◌≡◌, refl, Bool, true, Option, none,
  some, List, [], ◌∷◌, ◌++◌, arith, if◌then◌else◌, Bool-cases, inl, inr,
}

module _ {ℓ} {A : Type ℓ} where
  abbrev pub length : List A → ℕ
  length [] = 0
  length (x ∷ xs) = suc (length xs)

  unfoldable pub take : ℕ → List A → List A
  take zero xs = []
  take (suc n) [] = []
  take (suc n) (x ∷ xs) = x ∷ take n xs

  unfoldable pub drop : ℕ → List A → List A
  drop zero xs = xs
  drop (suc n) [] = []
  drop (suc n) (x ∷ xs) = drop n xs

  -- `xs[-1] if xs else None`
  unfoldable pub get_last? : List A → Option A
  get_last? [] = none
  get_last? (x ∷ []) = some x
  get_last? (x ∷ y ∷ xs) = get_last? (y ∷ xs)

  -- `[x for x in xs if p(x)]`
  unfoldable pub keep : (A → Bool) → List A → List A
  keep p [] = []
  keep p (x ∷ xs) = let rest = keep p xs in if p x then x ∷ rest else rest

  pub length-append : (xs ys : List A) → length (xs ++ ys) ≡ length xs + length ys
  length-append [] ys = omega arith
  length-append (x ∷ xs) ys = omega (arith, length-append xs ys)

  pub keep-append : (p : A → Bool) (xs ys : List A) → keep p (xs ++ ys) ≡ keep p xs ++ keep p ys
  unfolding keep
  keep-append p [] ys = refl
  keep-append p (x ∷ xs) ys = ground (arith, keep-append p xs ys)

  pub get_last?-append : (xs : List A) (x : A) → get_last? (xs ++ x ∷ []) ≡ some x
  unfolding get_last?
  get_last?-append [] x = refl
  get_last?-append (y ∷ []) x = refl
  get_last?-append (y ∷ z ∷ xs) x = get_last?-append (z ∷ xs) x

-- Every element of a list has the property.
abbrev pub All {ℓ κ} : {A : Type ℓ} → (A → Type κ) → List A → Type κ
All P [] = Unit
All P (x ∷ xs) = P x × All P xs

pub All-append {ℓ κ} :
    {A : Type ℓ} (P : A → Type κ) (before after : List A)
    → All P before
    → All P after
    → All P (before ++ after)
All-append P [] after h k = k
All-append P (x ∷ before) after (p, h) k = (p, All-append P before after h k)

module _ {ℓ κ} {A : Type ℓ} (P : A → Type κ) where
  pub All-take : (n : ℕ) (xs : List A) → All P xs → All P (take n xs)
  unfolding take
  All-take zero xs h = tt
  All-take (suc n) [] h = tt
  All-take (suc n) (x ∷ xs) (p, h) = (p, All-take n xs h)

  pub All-drop : (n : ℕ) (xs : List A) → All P xs → All P (drop n xs)
  unfolding drop
  All-drop zero xs h = h
  All-drop (suc n) [] h = tt
  All-drop (suc n) (x ∷ xs) (p, h) = All-drop n xs h

-- what is kept passes the test
pub All-keep {ℓ} : {A : Type ℓ} (p : A → Bool) (xs : List A) → All (λ x. p x ≡ true) (keep p xs)
unfolding keep
All-keep p [] = tt
All-keep p (x ∷ xs) = elim (Bool-cases (p x)) [
  | inl e ↦ rw e (e, All-keep p xs)
  | inr e ↦ rw e (All-keep p xs)
]

-- and was there
pub All-keep_of {ℓ κ} :
    {A : Type ℓ} (P : A → Type κ) (p : A → Bool) (xs : List A) → All P xs → All P (keep p xs)
unfolding keep
All-keep_of P p [] h = tt
All-keep_of P p (x ∷ xs) (px, h) = elim (Bool-cases (p x)) [
  | inl e ↦ rw e (px, All-keep_of P p xs h)
  | inr e ↦ rw e (All-keep_of P p xs h)
]

pub length-take : {A : Type 0} (n : ℕ) (xs : List A) → length (take n xs) ≤ length xs
unfolding take
length-take zero xs = omega arith
length-take (suc n) [] = omega arith
length-take (suc n) (x ∷ xs) = omega (arith, length-take n xs)

pub length-drop : {A : Type 0} (n : ℕ) (xs : List A) → length (drop n xs) ≤ length xs
unfolding drop
length-drop zero xs = omega arith
length-drop (suc n) [] = omega arith
length-drop (suc n) (x ∷ xs) = omega (arith, length-drop n xs)

pub All-both {ℓ κ μ} :
    {A : Type ℓ} (P : A → Type κ) (Q : A → Type μ) (xs : List A)
    → All P xs
    → All Q xs
    → All (λ x. P x × Q x) xs
All-both P Q [] h k = tt
All-both P Q (x ∷ xs) (p, h) (q, k) = ((p, q), All-both P Q xs h k)

pub take-drop {ℓ} : {A : Type ℓ} (n : ℕ) (xs : List A) → take n xs ++ drop n xs ≡ xs
unfolding take drop
take-drop zero xs = refl
take-drop (suc n) [] = refl
take-drop (suc n) (e ∷ xs) = ap (λ l. e ∷ l) (take-drop n xs)

pub none_taken {ℓ} : {A : Type ℓ} (n : ℕ) (xs : List A) → 0 < n → take n xs ≡ [] → xs ≡ []
unfolding take
none_taken zero xs h e = absurd (omega arith)
none_taken (suc n) [] h e = refl
none_taken (suc n) (x ∷ xs) h e = absurd cc

pub take-nil {ℓ} : {A : Type ℓ} (n : ℕ) → take {A = A} n [] ≡ []
unfolding take
take-nil zero = refl
take-nil (suc n) = refl

-- `k in names`
abbrev pub elem : String → List String → Bool
elem k [] = false
elem k (n ∷ ns) = (n == k) || elem k ns

pub All-map {ℓ κ μ} :
    {A : Type ℓ} {P : A → Type κ} {Q : A → Type μ}
    → ((x : A) → P x → Q x)
    → (xs : List A) → All P xs
    → All Q xs
All-map f [] h = tt
All-map f (x ∷ xs) (p, h) = (f x p, All-map f xs h)
