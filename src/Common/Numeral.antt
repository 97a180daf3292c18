-- ===== src/Common/Numeral.antt =====
-- The decimal text of a number, and the number that `int` reads from it. A text with anything but
-- digits is not read here: the program writes none where it reads one.
use Prim.Native.Char.{code}
use Prim.Native.Nat.{◌*◌, ◌/◌, ◌%◌}
use kafka_a2a.Common.{
  ℕ, zero, suc, ◌+◌, ◌-◌, ◌<◌, String, ◌≡◌, refl, ap, ◌∙◌, Bool-cases, inl, inr, Option, none, some,
  ◌&&◌, leb, if◌then◌else◌, arith,
}
use kafka_a2a.Common.Text.{digit, decimal_from, decimal}

int_from : ℕ → String → Option ℕ
int_from read String.[] = some read
int_from read (String.◌∷◌ c s) =
    let rest = int_from (read * 10 + (code c - 48)) s in
    if leb 48 (code c) && leb (code c) 57 then rest else none

-- `int(s)` of a text of digits
unfoldable pub int_of : String → Option ℕ
unfolding int_from
int_of String.[] = none
int_of (String.◌∷◌ c s) = int_from 0 (String.◌∷◌ c s)

int_from-digit :
    (d : ℕ) (read : ℕ) (s : String)
    → d < 10
    → int_from read (String.◌∷◌ (digit d) s) ≡ int_from (read * 10 + d) s
unfolding int_from digit
int_from-digit zero read s h = ap (λ m. int_from m s) (omega arith)
int_from-digit (suc zero) read s h = refl
int_from-digit (suc (suc zero)) read s h = refl
int_from-digit (suc (suc (suc zero))) read s h = refl
int_from-digit (suc (suc (suc (suc zero)))) read s h = refl
int_from-digit (suc (suc (suc (suc (suc zero))))) read s h = refl
int_from-digit (suc (suc (suc (suc (suc (suc zero)))))) read s h = refl
int_from-digit (suc (suc (suc (suc (suc (suc (suc zero))))))) read s h = refl
int_from-digit (suc (suc (suc (suc (suc (suc (suc (suc zero)))))))) read s h = refl
int_from-digit (suc (suc (suc (suc (suc (suc (suc (suc (suc zero))))))))) read s h = refl
int_from-digit (suc (suc (suc (suc (suc (suc (suc (suc (suc (suc n)))))))))) read s h =
    absurd (omega arith)

int_from-decimal_from :
    (fuel n : ℕ) (rest : String)
    → n < fuel
    → int_from 0 (decimal_from fuel n rest) ≡ int_from n rest
unfolding decimal_from
int_from-decimal_from zero n rest h = absurd (omega arith)
int_from-decimal_from (suc fuel) n rest h = elim (Bool-cases (leb n 9)) [
  | inl small ↦
      rw small
        (int_from-digit (n % 10) 0 rest (omega arith) ∙ ap (λ m. int_from m rest) (ground arith))
  | inr large ↦ rw large (
      int_from-decimal_from fuel (n / 10) (String.◌∷◌ (digit (n % 10)) rest) (ground arith)
      ∙ int_from-digit (n % 10) (n / 10) rest (omega arith)
      ∙ ap (λ m. int_from m rest) (omega arith))
]

-- what `decimal` writes is never empty
decimal_from-head :
    (fuel n : ℕ) (rest : String)
    → n < fuel
    → int_of (decimal_from fuel n rest) ≡ int_from 0 (decimal_from fuel n rest)
unfolding decimal_from int_of
decimal_from-head zero n rest h = absurd (omega arith)
decimal_from-head (suc fuel) n rest h = elim (Bool-cases (leb n 9)) [
  | inl small ↦ rw small refl
  | inr large ↦
      rw large (decimal_from-head fuel (n / 10) (String.◌∷◌ (digit (n % 10)) rest) (ground arith))
]

-- A number comes back from the text that it is printed as.
pub int_of-decimal : (n : ℕ) → int_of (decimal n) ≡ some n
unfolding decimal int_from
int_of-decimal n =
    decimal_from-head (suc n) n "" (omega arith) ∙ int_from-decimal_from (suc n) n "" (omega arith)
