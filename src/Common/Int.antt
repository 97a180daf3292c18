-- ===== src/Common/Int.antt =====
-- Signed integers, and the slices of a list by them.
use kafka_a2a.Common.{ℕ, suc, ◌-◌, List}
use kafka_a2a.Common.Lists.{length, take, drop}

-- `negsuc n` is -(n + 1).
pub data ℤ : Type 0 where
  pos : ℕ → ℤ
  negsuc : ℕ → ℤ

module _ {ℓ} {A : Type ℓ} where
  -- `xs[n:]`
  unfoldable pub slice_from : ℤ → List A → List A
  slice_from (pos n) xs = drop n xs
  slice_from (negsuc n) xs = drop (length xs - suc n) xs

  -- `xs[:n]`
  unfoldable pub slice_to : ℤ → List A → List A
  slice_to (pos n) xs = take n xs
  slice_to (negsuc n) xs = take (length xs - suc n) xs
