-- ===== src/SharedRuntime/Stops.antt =====
-- What a reconcile leaves where the stop of an agent raises.
use mathlib.Core.Path.{subst}
use kafka_a2a.Common.{
  String, ◌≡◌, ◌⊎◌, refl, ◌∙◌, Bool, true, false, Bool-cases, Option-cases, inl, inr, none, some,
  List, [], ◌∷◌, ◌==◌, eq_refl, if◌then◌else◌,
}
use kafka_a2a.Common.Dict.{Dict, contains}
use kafka_a2a.Common.Value.{Fields}
use kafka_a2a.SharedRuntime.State.{
  ManagedAgent, ServiceState, stop_agent, stop_unless, stop_missing, is_current, collect,
}
use kafka_a2a.SharedRuntime.Folds.{at, stop_unless-at}

-- Every agent still runs as it did, or no longer.
abbrev pub Shrinks : ServiceState → ServiceState → Type 0
Shrinks s s' = (k : String) → (at k s' ≡ at k s) ⊎ (at k s' ≡ none)

Shrinks-trans : (a b c : ServiceState) → Shrinks a b → Shrinks b c → Shrinks a c
Shrinks-trans a b c f g k = elim (g k) [
  | inr gone ↦ inr gone
  | inl same ↦ elim (f k) [ inl before ↦ inl (same ∙ before) | inr gone ↦ inr (same ∙ gone) ]
]

module _ (stops : String → ManagedAgent → Bool) where
  -- An agent of this name ran, its stop raises, and it is no longer managed; the others still run as
  -- they did, or no longer.
  pub record Aborted (name : String) (s s' : ServiceState) : Type 0 where
    pub ran : (m : ManagedAgent) × (at name s ≡ some m) × (stops name m ≡ false)
    pub gone : at name s' ≡ none
    pub others : Shrinks s s'

  stop_unless-Shrinks :
      (stays : Bool) (name : String) (s : ServiceState)
      → Shrinks s (stop_unless stops stays name s).1
  stop_unless-Shrinks stays name s k = rw (stop_unless-at stops stays name k s) (either stays)
    where
      either :
          (b : Bool)
          → ((if b then at k s else if name == k then none else at k s) ≡ at k s)
            ⊎ ((if b then at k s else if name == k then none else at k s) ≡ none)
      either true = inl refl
      either false = elim (Bool-cases (name == k)) [
        | inl e ↦ inr (rw e refl)
        | inr e ↦ inl (rw e refl)
      ]

  stop_agent-Aborted :
      (name : String) (s : ServiceState)
      → (stop_agent stops name s).0 ≡ false
      → (m : ManagedAgent) × (at name s ≡ some m) × (stops name m ≡ false)
  unfolding stop_agent
  stop_agent-Aborted name s h = elim (Option-cases (at name s)) [
    | inl e ↦ absurd (cc (rw (e, stop_agent) at h))
    | inr (m, e) ↦ (m, e, rw (e, stop_agent) at h)
  ]

  stop_unless-Aborted :
      (stays : Bool) (name : String) (s : ServiceState)
      → (stop_unless stops stays name s).0 ≡ false
      → Aborted name s (stop_unless stops stays name s).1
  unfolding stop_unless
  stop_unless-Aborted true name s h = absurd cc
  stop_unless-Aborted false name s h = record {
    ran = stop_agent-Aborted name s h;
    gone = stop_unless-at stops false name name s ∙ rw eq_refl refl;
    others = stop_unless-Shrinks false name s;
  }

  -- an abort after what shrank
  pub Aborted-after :
      (name : String) (a b c : ServiceState) → Shrinks a b → Aborted name b c → Aborted name a c
  Aborted-after name a b c f h = record {
    ran = elim (f name) [
      | inl same ↦ (h.ran.0, subst (λ o. o ≡ some h.ran.0) same h.ran.1, h.ran.2)
      | inr gone ↦ absurd (cc (gone, h.ran.1))
    ];
    gone = h.gone;
    others = Shrinks-trans a b c f h.others;
  }

  pub stop_missing-Shrinks :
      (desired : Dict (String × Fields)) (names : List String) (s : ServiceState)
      → Shrinks s (stop_missing stops desired names s).1
  unfolding stop_missing
  stop_missing-Shrinks desired [] s = λ k. inl refl
  stop_missing-Shrinks desired (n ∷ names) s =
      let s' = (stop_unless stops (contains n desired) n s).1 in
      elim (Bool-cases (stop_unless stops (contains n desired) n s).0) [
        | inl ended ↦ rw ended (
            Shrinks-trans s s' (stop_missing stops desired names s').1
              (stop_unless-Shrinks (contains n desired) n s)
              (stop_missing-Shrinks desired names s'))
        | inr failed ↦ rw failed (stop_unless-Shrinks (contains n desired) n s)
      ]

  pub stop_missing-Aborted :
      (desired : Dict (String × Fields)) (names : List String) (s : ServiceState) {name : String}
      → (stop_missing stops desired names s).0 ≡ some name
      → Aborted name s (stop_missing stops desired names s).1
  unfolding stop_missing
  stop_missing-Aborted desired [] s h = absurd cc
  stop_missing-Aborted desired (n ∷ names) s {name} h =
      let s' = (stop_unless stops (contains n desired) n s).1 in
      elim (Bool-cases (stop_unless stops (contains n desired) n s).0) [
        | inl ended ↦ rw ended (
            Aborted-after name s s' (stop_missing stops desired names s').1
              (stop_unless-Shrinks (contains n desired) n s)
              (stop_missing-Aborted desired names s' (rw ended at h)))
        | inr failed ↦ rw failed (
            subst (λ j. Aborted j s s') (cc (rw failed at h))
              (stop_unless-Aborted (contains n desired) n s failed))
      ]

  pub collect-Aborted :
      (m : Dict (String × Fields)) (s : ServiceState) {name : String}
      → (collect stops m s).0 ≡ some name
      → Aborted name s (collect stops m s).2
  unfolding collect
  collect-Aborted [] s h = absurd cc
  collect-Aborted ((n, wanted) ∷ m) s {name} h =
      let current = is_current (at n s) wanted.0 in
      let s' = (stop_unless stops current n s).1 in
      elim (Bool-cases (stop_unless stops current n s).0) [
        | inl ended ↦ rw ended (
            Aborted-after name s s' (collect stops m s').2 (stop_unless-Shrinks current n s)
              (collect-Aborted m s' (rw ended at h)))
        | inr failed ↦ rw failed (
            subst (λ j. Aborted j s s') (cc (rw failed at h))
              (stop_unless-Aborted current n s failed))
      ]
