-- ===== src/Common.antt =====
-- Names that every component shares: those of the libraries, passed on, the Boolean tests on
-- numbers, exceptions as values, and what the children declare.
pub mod Dict
pub mod Distinct
pub mod Int
pub mod Lists
pub mod Numeral
pub mod Text
pub mod Value
use Prim.Native.Nat.{compare, Ordering}
pub use Prim.Native.Nat.{ℕ, zero, suc, ◌+◌, ◌-◌, ◌≤◌, ◌<◌}
pub use Prim.Native.String.{String}
pub use mathlib.Core.Path.{◌≡◌, refl, sym, ap, ◌∙◌}
pub use mathlib.Core.Logic.{◌≢◌, ◌↔◌, ◌⊎◌, inl, inr}
pub use mathlib.Core.Bool.{Bool, true, false, not, ◌&&◌, ◌||◌}
pub use mathlib.Core.Option.{Option, none, some}
pub use mathlib.Core.List.{List, [], ◌∷◌, ◌++◌, map}
pub use native.Mathlib.Omega.{arith}
pub use text.Mathlib.Text.{◌==◌}
pub use text.Mathlib.TextEquality.{eq_iff}
pub use text.Mathlib.TextPositions.{eq_refl}

abbrev pub ltb : ℕ → ℕ → Bool
ltb a b = elim (compare a b) [ Ordering.lt ↦ true | _ ↦ false ]

abbrev pub leb : ℕ → ℕ → Bool
leb a b = elim (compare a b) [ Ordering.gt ↦ false | _ ↦ true ]

-- `==` is the test on texts; this one is on numbers.
abbrev pub nat_eq : ℕ → ℕ → Bool
nat_eq a b = elim (compare a b) [ Ordering.eq ↦ true | _ ↦ false ]

infix 1 if◌then◌else◌
abbrev pub if◌then◌else◌ {ℓ} : {A : Type ℓ} → Bool → A → A → A
if true then x else y = x
if false then x else y = y

pub Bool-cases : (b : Bool) → (b ≡ true) ⊎ (b ≡ false)
Bool-cases true = inl refl
Bool-cases false = inr refl

pub Option-cases {ℓ} : {A : Type ℓ} (o : Option A) → (o ≡ none) ⊎ ((a : A) × (o ≡ some a))
Option-cases none = inl refl
Option-cases (some a) = inr (a, refl)

-- A call that may raise an exception of type `E`.
pub data Result {ℓ} (E A : Type ℓ) : Type ℓ where
  ok : A → Result E A
  raise : E → Result E A

infixl 5 ◌>>=◌ ◌>>◌
abbrev pub ◌>>=◌ {ℓ} : {E A B : Type ℓ} → Result E A → (A → Result E B) → Result E B
ok a >>= f = f a
raise e >>= f = raise e

abbrev pub ◌>>◌ {ℓ} : {E B : Type ℓ} → Result E (Unit {ℓ}) → Result E B → Result E B
m >> k = m >>= λ _. k

abbrev pub is_some {ℓ} : {A : Type ℓ} → Option A → Bool
is_some none = false
is_some (some a) = true

abbrev pub get_or {ℓ} : {A : Type ℓ} → Option A → A → A
get_or none d = d
get_or (some a) d = a

-- The truth of an optional text, as `if x` and `x or y` read it: absent and empty are false.
abbrev pub is_given : Option String → Bool
is_given none = false
is_given (some s) = not (s == "")

-- `x or y` on optional texts.
abbrev pub or_else : Option String → Option String → Option String
or_else x y = if is_given x then x else y

-- `x or y` where the last operand is a text.
abbrev pub or_text : Option String → String → String
or_text none y = y
or_text (some s) y = if s == "" then y else s

pub nat_eq_refl : (n : ℕ) → nat_eq n n ≡ true
nat_eq_refl n = ground arith

pub Result-cases {ℓ} :
    {E A : Type ℓ} (r : Result E A) → ((a : A) × (r ≡ ok a)) ⊎ ((e : E) × (r ≡ raise e))
Result-cases (ok a) = inl (a, refl)
Result-cases (raise e) = inr (e, refl)
