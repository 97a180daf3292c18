-- ===== src/Decisioning/Retry.antt =====
-- How many calls of the provider a decision takes.
use mathlib.Core.Path.{subst}
use kafka_a2a.Common.{
  ℕ, zero, suc, ◌+◌, ◌≤◌, ◌<◌, ◌≡◌, ap, ◌∙◌, true, false, some, leb, arith, Bool-cases, inl, inr,
  ◌⊎◌,
}
use kafka_a2a.Decisioning.Contracts.{DecisioningConfig, DecisionResult, is_transient}
use kafka_a2a.Decisioning.Service.{Call, attempt, call_with_retry}

module _ (cfg : DecisioningConfig) (calls : ℕ → Call) where
  -- as many calls, from the first on, have a passing error
  abbrev pub Passing : ℕ → ℕ → Type 0
  Passing zero first = Unit
  Passing (suc k) first = (is_transient (attempt cfg (calls first)) ≡ true) × Passing k (suc first)

  -- The result is the one of the call after so many retries: it is the first without a passing
  -- error, or no more retries are allowed.
  pub record Settled (first retries : ℕ) (r : DecisionResult) : Type 0 where
    pub result : r ≡ attempt cfg (calls (first + retries))
    pub bound : first + retries ≤ cfg.retry_max_retries
    pub last : (is_transient r ≡ false) ⊎ (first + retries ≡ cfg.retry_max_retries)
    pub earlier : Passing retries first

  Settled-here :
      (first : ℕ)
      → first ≤ cfg.retry_max_retries
      → (is_transient (attempt cfg (calls first)) ≡ false) ⊎ (first ≡ cfg.retry_max_retries)
      → Settled first 0 (attempt cfg (calls first))
  Settled-here first low last = record {
    result = ap (λ n. attempt cfg (calls n)) here;
    bound = omega arith;
    last = rw⁻¹ here last;
    earlier = tt;
  }
    where
      here : first ≡ first + 0
      here = omega arith

  Settled-later :
      (first retries : ℕ) (r : DecisionResult)
      → is_transient (attempt cfg (calls first)) ≡ true
      → Settled (suc first) retries r
      → Settled first (suc retries) r
  Settled-later first retries r e h = record {
    result = h.result ∙ ap (λ n. attempt cfg (calls n)) next;
    bound = subst (λ n. n ≤ cfg.retry_max_retries) next h.bound;
    last = subst (λ n. (is_transient r ≡ false) ⊎ (n ≡ cfg.retry_max_retries)) next h.last;
    earlier = (e, h.earlier);
  }
    where
      next : suc first + retries ≡ first + suc retries
      next = omega arith

  call_from_settles :
      (fuel first : ℕ)
      → first ≤ cfg.retry_max_retries
      → cfg.retry_max_retries < first + fuel
      → (r : DecisionResult) × (k : ℕ) × (call_with_retry cfg fuel calls first
          ≡ some (r, first + k))
        × Settled first k r
  unfolding call_with_retry
  call_from_settles zero first low enough = absurd (omega arith)
  call_from_settles (suc fuel) first low enough =
      elim (Bool-cases (is_transient (attempt cfg (calls first)))) [
        | inr e ↦ (
          _,
          0,
          rw e (ap (λ n. some (attempt cfg (calls first), n)) here),
          Settled-here first low (inl e),
        )
        | inl e ↦ elim (Bool-cases (leb cfg.retry_max_retries first)) [
          | inl full ↦ (
            _,
            0,
            rw (e, full) (ap (λ n. some (attempt cfg (calls first), n)) here),
            Settled-here first low (inr (ground arith)),
          )
          | inr more ↦
              let (r, k, found, h) =
                call_from_settles fuel (suc first) (ground arith) (omega arith) in
              (
                r,
                suc k,
                rw (e, more) (found ∙ ap (λ n. some (r, n)) (next k)),
                Settled-later first k r e h,
              )
        ]
      ]
    where
      here : first ≡ first + 0
      here = omega arith

      next : (k : ℕ) → suc first + k ≡ first + suc k
      next k = omega arith

  -- With fuel for one call more than the retries that are allowed, the loop returns. Its result is that
  -- of the call after so many retries, which are no more than allowed; all calls before had a passing
  -- error, and this one has none unless no more retries are allowed.
  pub call_with_retry_settles :
      (r : DecisionResult) × (k : ℕ) × (call_with_retry cfg (suc cfg.retry_max_retries) calls 0
        ≡ some (r, k))
      × Settled 0 k r
  call_with_retry_settles =
      let (r, k, found, h) =
        call_from_settles (suc cfg.retry_max_retries) 0 (omega arith) (omega arith) in
      (r, k, found ∙ ap (λ n. some (r, n)) (start k), h)
    where
      start : (k : ℕ) → 0 + k ≡ k
      start k = omega arith
