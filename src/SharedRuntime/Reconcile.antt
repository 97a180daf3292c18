-- ===== src/SharedRuntime/Reconcile.antt =====
-- What a reconcile leaves under each name.
use kafka_a2a.Common.{
  String, ◌≡◌, refl, ap, ◌∙◌, Bool, true, false, ◌⊎◌, Bool-cases, inl, inr, Option, none, some,
  List, [], ◌∷◌, ◌==◌, if◌then◌else◌, is_some, Result, ok, raise,
}
use kafka_a2a.Common.Dict.{Dict, lookup, contains}
use kafka_a2a.Common.Value.{Value, Fields, get_field}
use kafka_a2a.SharedRuntime.State.{
  ManagedAgent, ServiceState, ControlPlaneError, agents_of, or_last, load_registry, is_current,
  names_of, stop_missing, collect, runtime_name, desire, reconcile_with, reconcile_loaded,
  collect_remaining, start_collected, start_all, stop_unless, Reconciled, stop_failed, reconcile,
}
use kafka_a2a.Common.Distinct.{Distinct, insert-Distinct}
use kafka_a2a.SharedRuntime.Stops.{
  Shrinks, Aborted, Aborted-after, stop_missing-Shrinks, stop_missing-Aborted, collect-Aborted,
}
use kafka_a2a.SharedRuntime.Folds.{
  at, elem-names_of, stop_missing-at, collected, kept, collect-at, ran, start_all-at,
}

module _ (stops : String → ManagedAgent → Bool) where
  collect-Distinct :
      (m : Dict (String × Fields)) (s : ServiceState)
      → Distinct m
      → (collect stops m s).0 ≡ none
      → Distinct (collect stops m s).1
  unfolding collect
  collect-Distinct [] s h g = tt
  collect-Distinct ((n, wanted) ∷ m) s h g =
      let stays = is_current (at n s) wanted.0 in
      let s' = (stop_unless stops stays n s).1 in
      elim (Bool-cases (stop_unless stops stays n s).0) [
        | inl ended ↦ rw ended (
            put stays (collect stops m s').1
              ((collect-at stops m s' h.1 (rw ended at g) n).0 ∙ ap (collected _) h.0)
              (collect-Distinct m s' h.1 (rw ended at g)))
        | inr failed ↦ absurd (cc (rw failed at g))
      ]
    where
      put :
          (b : Bool) (l : Dict (String × Fields))
          → lookup n l ≡ none
          → Distinct l
          → Distinct (if b then l else (n, wanted) ∷ l)
      put true l e d = d
      put false l e d = (e, d)

-- What should run under a name: nothing where it is not desired; what runs already where its
-- fingerprint is the desired one; and else a new agent, if it starts.
abbrev pub should_run :
    (String → Fields → Bool)
    → String
    → Option (String × Fields)
    → Option ManagedAgent
    → Option ManagedAgent
should_run starts k none o = none
should_run starts k (some wanted) o =
    if is_current o wanted.0
    then o
    else if starts k wanted.1
    then some (record { fingerprint = wanted.0; payload = wanted.1 })
    else none

abbrev pub last_registry : List Fields → Option (List Fields)
last_registry [] = none
last_registry (a ∷ last) = some (a ∷ last)

-- the registry that a reconcile works from: the answer, or the last one that had agents
abbrev pub registry_of : Result ControlPlaneError Fields → ServiceState → Option (List Fields)
registry_of (ok payload) s = some (agents_of (get_field "agents" payload))
registry_of (raise e) s = last_registry s.last_registry_agents

ran-kept :
    (starts : String → Fields → Bool) (k : String) (w : Option (String × Fields))
    (o : Option ManagedAgent)
    → ran starts k
        (collected (if is_some w then o else none) w)
        (kept (if is_some w then o else none) w)
      ≡ should_run starts k w o
ran-kept starts k none o = refl
ran-kept starts k (some wanted) o = elim (Bool-cases (is_current o wanted.0)) [
  | inl current ↦ rw current refl
  | inr changed ↦ rw changed refl
]

module _ (repr : Value → String) (fingerprint_of : Fields → String)
    (starts : String → Fields → Bool) (stops : String → ManagedAgent → Bool) where
  desire-Distinct :
      (agents : List Fields) (desired : Dict (String × Fields))
      → Distinct desired
      → Distinct (desire repr fingerprint_of starts stops agents desired)
  unfolding desire
  desire-Distinct [] desired h = h
  desire-Distinct (payload ∷ agents) desired h =
      elim (Bool-cases (runtime_name repr fingerprint_of starts stops payload == "")) [
        | inl unnamed ↦ rw (unnamed, desire) (desire-Distinct agents desired h)
        | inr named ↦ rw (named, desire) (desire-Distinct agents _ (insert-Distinct _ _ desired h))
      ]

  remaining :
      (desired : Dict (String × Fields)) (k : String) (s : ServiceState)
      → (stop_missing stops desired (names_of s.managed) s).0 ≡ none
      → at k (stop_missing stops desired (names_of s.managed) s).1
        ≡ (if contains k desired then at k s else none)
  remaining desired k s h =
      stop_missing-at stops desired (names_of s.managed) k s h
      ∙ rw (elem-names_of k s.managed) (gone (at k s))
    where
      gone :
          (o : Option ManagedAgent)
          → (if contains k desired then o else if is_some o then none else o)
            ≡ (if contains k desired then o else none)
      gone none = refl
      gone (some m) = refl

  -- A reconcile with these agents either is ended by a stop that raises, or leaves what should run.
  abbrev pub Ended : Dict (String × Fields) → ServiceState → Reconciled × ServiceState → Type 0
  Ended desired s r =
      ((name : String) × (r.0 ≡ stop_failed name) × Aborted stops name s r.1)
      ⊎ ((k : String) → at k r.1 ≡ should_run starts k (lookup k desired) (at k s))

  -- the outcome of the second loop
  started-Ended :
      (desired : Dict (String × Fields)) (s : ServiceState)
      (c : Option String × Dict (String × Fields) × ServiceState)
      → ((name : String) → c.0 ≡ some name → Aborted stops name s c.2)
      → (c.0 ≡ none
          → (k : String)
          → at k (start_all repr fingerprint_of starts stops c.1 c.2)
            ≡ should_run starts k (lookup k desired) (at k s))
      → Ended desired s (start_collected repr fingerprint_of starts stops c)
  unfolding start_collected
  started-Ended desired s (some name, to_start, s₁) failed clear =
      inl (name, refl, failed name refl)
  started-Ended desired s (none, to_start, s₁) failed clear = inr (clear refl)

  collected-Ended :
      (desired : Dict (String × Fields)) (s : ServiceState) (s₁ : ServiceState)
      → Distinct desired
      → Shrinks s s₁
      → ((k : String) → at k s₁ ≡ (if contains k desired then at k s else none))
      → Ended desired s (collect_remaining repr fingerprint_of starts stops desired (none, s₁))
  unfolding collect_remaining
  collected-Ended desired s s₁ d shrunk remain =
      started-Ended desired s (collect stops desired s₁)
        (λ name failed.
          Aborted-after stops name s s₁ (collect stops desired s₁).2 shrunk
            (collect-Aborted stops desired s₁ failed))
        λ clear k.
          start_all-at starts repr fingerprint_of stops (collect stops desired s₁).1
            (collect stops desired s₁).2 (collect-Distinct stops desired s₁ d clear) k
          ∙ rw
              (
                (collect-at stops desired s₁ d clear k).0,
                (collect-at stops desired s₁ d clear k).1,
                remain k,
              )
              (ran-kept starts k (lookup k desired) (at k s))

  -- the outcome of the first loop
  remaining-Ended :
      (desired : Dict (String × Fields)) (s : ServiceState) (c : Option String × ServiceState)
      → ((name : String) → c.0 ≡ some name → Aborted stops name s c.1)
      → (c.0 ≡ none
          → Ended desired s
              (collect_remaining repr fingerprint_of starts stops desired (none, c.1)))
      → Ended desired s (collect_remaining repr fingerprint_of starts stops desired c)
  unfolding collect_remaining
  remaining-Ended desired s (some name, s₁) failed clear = inl (name, refl, failed name refl)
  remaining-Ended desired s (none, s₁) failed clear = clear refl

  reconcile_with-Ended :
      (desired : Dict (String × Fields)) (s : ServiceState)
      → Distinct desired
      → Ended desired s (reconcile_with repr fingerprint_of starts stops desired s)
  unfolding reconcile_with
  reconcile_with-Ended desired s d =
      let names = names_of s.managed in
      let stopped = stop_missing stops desired names s in
      remaining-Ended desired s stopped
        (λ name failed. stop_missing-Aborted stops desired names s failed)
        λ clear.
          collected-Ended desired s stopped.1 d (stop_missing-Shrinks stops desired names s)
            λ k. remaining desired k s clear

  -- what runs under a name after a reconcile
  abbrev pub after_reconcile :
      Option (List Fields) → String → Option ManagedAgent → Option ManagedAgent
  after_reconcile none k o = o
  after_reconcile (some agents) k o =
      should_run starts k (lookup k (desire repr fingerprint_of starts stops agents [])) o

  -- A reconcile ends in one of two ways. Either the stop of an agent that ran raises: then the reconcile
  -- raises, that name is no longer managed, every other agent runs as before or no longer, and none is
  -- started. Or, under each name: nothing runs where the registry does not have it; the agent that ran
  -- before still runs, untouched, where its fingerprint is the one in the registry; and else an agent
  -- runs from the registry's payload if its start came to its end, and none otherwise. The registry is
  -- the answer of the control plane, or, where that fails, the last answer, if it had agents; without
  -- either nothing changes. A name has the last of the registry's payloads with that name.
  pub reconcile_lem :
      (answer : Result ControlPlaneError Fields) (s : ServiceState)
      → ((name : String) × ((reconcile repr fingerprint_of starts stops answer s).0
            ≡ stop_failed name)
          × Aborted stops name s (reconcile repr fingerprint_of starts stops answer s).1)
        ⊎ ((k : String)
            → at k (reconcile repr fingerprint_of starts stops answer s).1
              ≡ after_reconcile (registry_of answer s) k (at k s))
  unfolding reconcile load_registry
  reconcile_lem (ok payload) s =
      let agents = agents_of (get_field "agents" payload) in
      elim (reconcile_with-Ended (desire repr fingerprint_of starts stops agents [])
        (record s { last_registry_agents = agents }) (desire-Distinct agents [] tt)) [
          | inl (name, e, a) ↦
              inl (name, e, record { ran = a.ran; gone = a.gone; others = a.others })
          | inr f ↦ inr f
        ]
  reconcile_lem (raise e) s = served s.last_registry_agents
    where
      served :
          (last : List Fields)
          → ((name : String) × ((reconcile_loaded repr fingerprint_of starts stops
                  (or_last e last s)).0
                ≡ stop_failed name)
              × Aborted stops name s
                  (reconcile_loaded repr fingerprint_of starts stops (or_last e last s)).1)
            ⊎ ((k : String)
                → at k (reconcile_loaded repr fingerprint_of starts stops (or_last e last s)).1
                  ≡ after_reconcile (last_registry last) k (at k s))
      served [] = inr λ k. refl
      served (a ∷ last) =
          reconcile_with-Ended (desire repr fingerprint_of starts stops (a ∷ last) []) s
            (desire-Distinct (a ∷ last) [] tt)
