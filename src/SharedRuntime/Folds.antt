-- ===== src/SharedRuntime/Folds.antt =====
-- What the loops of `_reconcile` leave under each name.
use mathlib.Core.Path.{subst}
use kafka_a2a.Common.{
  String, ◌≡◌, refl, ap, ◌∙◌, Bool, true, false, ◌||◌, Bool-cases, Option-cases, inl, inr, Option,
  none, some, List, [], ◌∷◌, ◌==◌, eq_iff, eq_refl, if◌then◌else◌, arith,
}
use kafka_a2a.Common.Dict.{Dict, lookup, contains, lookup-insert, lookup-remove}
use kafka_a2a.Common.Distinct.{Distinct}
use kafka_a2a.Common.Lists.{elem}
use kafka_a2a.Common.Value.{Value, Fields}
use kafka_a2a.SharedRuntime.State.{
  ManagedAgent, ServiceState, stop_agent, stop_unless, names_of, stop_missing, is_current, collect,
  start_agent, start_all,
}

-- the managed agent of a name
abbrev pub at : String → ServiceState → Option ManagedAgent
at k s = lookup k s.managed

pub elem-names_of : (k : String) (m : Dict ManagedAgent) → elem k (names_of m) ≡ contains k m
unfolding names_of lookup
elem-names_of k [] = refl
elem-names_of k ((j, v) ∷ m) = ground (arith, elem-names_of k m)

-- what a wanted name comes to
abbrev pub collected : Option ManagedAgent → Option (String × Fields) → Option (String × Fields)
collected o none = none
collected o (some wanted) = if is_current o wanted.0 then none else some wanted

abbrev pub kept : Option ManagedAgent → Option (String × Fields) → Option ManagedAgent
kept o none = o
kept o (some wanted) = if is_current o wanted.0 then o else none

module _ (stops : String → ManagedAgent → Bool) where
  pub stop_agent-at :
      (name k : String) (s : ServiceState)
      → at k (stop_agent stops name s).1 ≡ (if name == k then none else at k s)
  unfolding stop_agent
  stop_agent-at name k s = elim (Option-cases (at name s)) [
    | inl e ↦
        rw (e, stop_agent)
          (elim (Bool-cases (name == k)) [
            | inl same ↦ rw same (subst (λ j. at j s ≡ none) ((eq_iff name k).0 same) e)
            | inr different ↦ rw different refl
          ])
    | inr (m, e) ↦ rw (e, stop_agent) (lookup-remove name k s.managed)
  ]

  pub stop_unless-at :
      (stays : Bool) (name k : String) (s : ServiceState)
      → at k (stop_unless stops stays name s).1
        ≡ (if stays then at k s else if name == k then none else at k s)
  unfolding stop_unless
  stop_unless-at true name k s = refl
  stop_unless-at false name k s = stop_agent-at name k s

  -- where no stop raises
  pub stop_missing-at :
      (desired : Dict (String × Fields)) (names : List String) (k : String) (s : ServiceState)
      → (stop_missing stops desired names s).0 ≡ none
      → at k (stop_missing stops desired names s).1
        ≡ (if contains k desired then at k s else if elem k names then none else at k s)
  unfolding stop_missing
  stop_missing-at desired [] k s h = ground arith
  stop_missing-at desired (n ∷ names) k s h =
      let stays = contains n desired in
      elim (Bool-cases (stop_unless stops stays n s).0) [
        | inl ended ↦ rw ended (
            stop_missing-at desired names k (stop_unless stops stays n s).1 (rw ended at h)
            ∙ rw (stop_unless-at stays n k s) (
                joined stays (contains k desired) (n == k) (elem k names) (at k s)
                  (λ e. ap (λ j. contains j desired) ((eq_iff n k).0 e))))
        | inr failed ↦ absurd (cc (rw failed at h))
      ]
    where
      joined :
          (cn ck nk e : Bool) (o : Option ManagedAgent)
          → (nk ≡ true → cn ≡ ck)
          → (if ck
              then if cn then o else if nk then none else o
              else if e
              then none
              else if cn
              then o
              else if nk
              then none
              else o)
            ≡ (if ck then o else if nk || e then none else o)
      joined cn ck nk e o h = ground arith

  abbrev pub Collects : Dict (String × Fields) → ServiceState → String → Type 0
  Collects m s k =
      (lookup k (collect stops m s).1 ≡ collected (at k s) (lookup k m))
      × (at k (collect stops m s).2 ≡ kept (at k s) (lookup k m))

  put_before :
      (n : String) (wanted : String × Fields) (m : Dict (String × Fields)) (s : ServiceState)
      → lookup n m ≡ none
      → (k : String) (stays : Bool) (s' : ServiceState) (to_start : Dict (String × Fields))
        (after : ServiceState)
      → is_current (at n s) wanted.0 ≡ stays
      → ((j : String) → at j s' ≡ (if stays then at j s else if n == j then none else at j s))
      → lookup k to_start ≡ collected (at k s') (lookup k m)
      → at k after ≡ kept (at k s') (lookup k m)
      → (lookup k (if stays then to_start else (n, wanted) ∷ to_start)
          ≡ collected (at k s) (lookup k ((n, wanted) ∷ m)))
        × (at k after ≡ kept (at k s) (lookup k ((n, wanted) ∷ m)))
  unfolding lookup
  put_before n wanted m s fresh k stays s' to_start after cur step ts left =
      elim (Bool-cases (n == k)) [
        | inl same ↦
            let lk : lookup k m ≡ none =
              subst (λ j. lookup j m ≡ none) ((eq_iff n k).0 same) fresh in
            let ck : is_current (at k s) wanted.0 ≡ stays =
              subst (λ j. is_current (at j s) wanted.0 ≡ stays) ((eq_iff n k).0 same) cur in
            here stays same ck (step k) (ts ∙ ap (collected (at k s')) lk)
              (left ∙ ap (kept (at k s')) lk)
        | inr different ↦
            let same_k : at k s' ≡ at k s = step k ∙ elsewhere stays different in
            there stays different (ts ∙ ap (λ o. collected o (lookup k m)) same_k)
              (left ∙ ap (λ o. kept o (lookup k m)) same_k)
      ]
    where
      elsewhere :
          (b : Bool)
          → (n == k) ≡ false
          → (if b then at k s else if n == k then none else at k s) ≡ at k s
      elsewhere true e = refl
      elsewhere false e = rw e refl

      here :
          (b : Bool)
          → (n == k) ≡ true
          → is_current (at k s) wanted.0 ≡ b
          → at k s' ≡ (if b then at k s else if n == k then none else at k s)
          → lookup k to_start ≡ none
          → at k after ≡ at k s'
          → (lookup k (if b then to_start else (n, wanted) ∷ to_start)
              ≡ collected (at k s) (if n == k then some wanted else lookup k m))
            × (at k after ≡ kept (at k s) (if n == k then some wanted else lookup k m))
      here true e c f t l = rw (e, c) (t, l ∙ f)
      here false e c f t l = rw (e, c) (refl, l ∙ f ∙ rw e refl)

      there :
          (b : Bool)
          → (n == k) ≡ false
          → lookup k to_start ≡ collected (at k s) (lookup k m)
          → at k after ≡ kept (at k s) (lookup k m)
          → (lookup k (if b then to_start else (n, wanted) ∷ to_start)
              ≡ collected (at k s) (if n == k then some wanted else lookup k m))
            × (at k after ≡ kept (at k s) (if n == k then some wanted else lookup k m))
      there true e t l = rw e (t, l)
      there false e t l = rw e (t, l)

  pub collect-at :
      (m : Dict (String × Fields)) (s : ServiceState)
      → Distinct m
      → (collect stops m s).0 ≡ none
      → (k : String) → Collects m s k
  unfolding collect lookup
  collect-at [] s h g k = (refl, refl)
  collect-at ((n, wanted) ∷ m) s h g k =
      let current = is_current (at n s) wanted.0 in
      let s' = (stop_unless stops current n s).1 in
      elim (Bool-cases (stop_unless stops current n s).0) [
        | inl ended ↦
            let (to_start, left) = collect-at m s' h.1 (rw ended at g) k in
            rw ended (
              put_before n wanted m s h.0 k current s' (collect stops m s').1 (collect stops m s').2
                refl (λ j. stop_unless-at current n j s) to_start left)
        | inr failed ↦ absurd (cc (rw failed at g))
      ]

-- what a name comes to after the starts
abbrev pub ran :
    (String → Fields → Bool)
    → String
    → Option (String × Fields)
    → Option ManagedAgent
    → Option ManagedAgent
ran starts k none o = o
ran starts k (some wanted) o =
    if starts k wanted.1 then some (record { fingerprint = wanted.0; payload = wanted.1 }) else o

start_agent-at :
    (starts : String → Fields → Bool) (repr : Value → String) (fingerprint_of : Fields → String)
    (stops : String → ManagedAgent → Bool) (n k : String) (wanted : String × Fields)
    (s : ServiceState)
    → at k (start_agent repr fingerprint_of starts stops n wanted s)
      ≡ (if n == k then ran starts n (some wanted) (at k s) else at k s)
unfolding start_agent
start_agent-at starts repr fingerprint_of stops n k wanted s =
    elim (Bool-cases (starts n wanted.1)) [
      | inl e ↦ rw (e, start_agent) (lookup-insert n k _ s.managed)
      | inr e ↦ rw (e, start_agent) (unchanged (n == k))
    ]
  where
    unchanged : (b : Bool) → at k s ≡ (if b then at k s else at k s)
    unchanged true = refl
    unchanged false = refl

pub start_all-at :
    (starts : String → Fields → Bool) (repr : Value → String) (fingerprint_of : Fields → String)
    (stops : String → ManagedAgent → Bool) (m : Dict (String × Fields)) (s : ServiceState)
    → Distinct m
    → (k : String)
    → at k (start_all repr fingerprint_of starts stops m s) ≡ ran starts k (lookup k m) (at k s)
unfolding start_all lookup
start_all-at starts repr fingerprint_of stops [] s h k = refl
start_all-at starts repr fingerprint_of stops ((n, wanted) ∷ m) s h k =
    start_all-at starts repr fingerprint_of stops m
      (start_agent repr fingerprint_of starts stops n wanted s) h.1 k
    ∙ elim (Bool-cases (n == k)) [
      | inl same ↦
          subst
            (λ j.
              ran starts j (lookup j m)
                (at j (start_agent repr fingerprint_of starts stops n wanted s))
              ≡ ran starts j (if n == j then some wanted else lookup j m) (at j s))
            ((eq_iff n k).0 same)
            (rw (h.0, start_agent-at starts repr fingerprint_of stops n n wanted s, eq_refl n) refl)
      | inr different ↦
          rw (start_agent-at starts repr fingerprint_of stops n k wanted s, different) refl
    ]
