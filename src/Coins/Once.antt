-- ===== src/Coins/Once.antt =====
-- No completion is charged twice.
use mathlib.Core.Path.{subst}
use kafka_a2a.Common.{
  String, ◌≡◌, refl, false, Option, none, some, List, [], ◌∷◌, ◌==◌, arith, Bool-cases, inl, inr,
  is_given, get_or,
}
use kafka_a2a.Common.Text.{strip}
use kafka_a2a.Common.Lists.{All}
use kafka_a2a.Common.Value.{Value, Fields, obj, get_field}
use kafka_a2a.Coins.Tracker.{
  PendingA2ACharge, reference_id, A2ACompletionChargeTracker, has, charge_once, is_chargeable,
  evaluate, evaluate_status, evaluate_kind, evaluate_fields, with_task, text_or_empty, task_id_of,
  see_artifact, add_charge, charges, build_a2a_coin_reference,
}

-- A step charges nothing and forgets no reference, or it charges a new reference and adds it.
abbrev Charged :
    A2ACompletionChargeTracker → Option PendingA2ACharge × A2ACompletionChargeTracker → Type 0
Charged t (none, t') = t'.charged_reference_ids ≡ t.charged_reference_ids
Charged t (some c, t') =
    (has (reference_id c) t.charged_reference_ids ≡ false)
    × (t'.charged_reference_ids ≡ reference_id c ∷ t.charged_reference_ids)

-- no reference of the charges is in the list
abbrev Fresh : List PendingA2ACharge → List String → Type 0
Fresh cs refs = All (λ c. has (reference_id c) refs ≡ false) cs

-- a list of charges in which each has its own reference
abbrev pub Once : List PendingA2ACharge → Type 0
Once [] = Unit
Once (c ∷ cs) = All (λ d. (reference_id c == reference_id d) ≡ false) cs × Once cs

Fresh-cons :
    (cs : List PendingA2ACharge) (r : String) (refs : List String)
    → Fresh cs (r ∷ refs)
    → All (λ d. (r == reference_id d) ≡ false) cs × Fresh cs refs
unfolding has
Fresh-cons [] r refs h = (tt, tt)
Fresh-cons (c ∷ cs) r refs (e, h) =
    let (new, old) = Fresh-cons cs r refs h in ((ground arith, new), (ground arith, old))

module _ (repr : Value → String) where
  charge_once-Charged :
      (profile_id task_id : String) (t : A2ACompletionChargeTracker)
      → Charged t (charge_once repr profile_id task_id t)
  unfolding charge_once reference_id
  charge_once-Charged profile_id task_id t =
      elim (Bool-cases
        (has (build_a2a_coin_reference profile_id task_id) t.charged_reference_ids)) [
          | inl e ↦ rw e refl
          | inr e ↦ rw e (e, refl)
        ]

  see_artifact-charged :
      (v : Option Value) (t : A2ACompletionChargeTracker)
      → (see_artifact repr v t).charged_reference_ids ≡ t.charged_reference_ids
  unfolding see_artifact
  see_artifact-charged (some (obj fs)) t = refl
  see_artifact-charged none t = refl
  see_artifact-charged (some _) t = refl

  evaluate_status-Charged :
      (profile_id : String) (fs : Fields) (task_id : Option String) (t : A2ACompletionChargeTracker)
      → Charged t (evaluate_status repr profile_id fs task_id t)
  unfolding evaluate_status
  evaluate_status-Charged profile_id fs task_id t =
      elim (Bool-cases
        (is_chargeable repr fs (get_field "status" fs) task_id t.assistant_result_seen)) [
          | inl e ↦ rw e (charge_once-Charged profile_id (get_or task_id "") t)
          | inr e ↦ rw e refl
        ]

  evaluate_kind-Charged :
      (kind profile_id : String) (fs : Fields) (task_id : Option String)
      (t : A2ACompletionChargeTracker)
      → Charged t (evaluate_kind repr kind profile_id fs task_id t)
  unfolding evaluate_kind
  evaluate_kind-Charged kind profile_id fs task_id t =
      elim (Bool-cases (kind == "artifact-update")) [
        | inl e ↦ rw e (see_artifact-charged (get_field "artifact" fs) t)
        | inr e ↦ elim (Bool-cases (kind == "status-update")) [
          | inl f ↦ rw (e, f) (evaluate_status-Charged profile_id fs task_id t)
          | inr f ↦ rw (e, f) refl
        ]
      ]

  evaluate-Charged :
      (p : Option Value) (t : A2ACompletionChargeTracker) → Charged t (evaluate repr p t)
  unfolding evaluate evaluate_fields with_task
  evaluate-Charged none t = refl
  evaluate-Charged (some (obj fs)) t = elim (Bool-cases (is_given t.profile_id)) [
    | inl e ↦ rw e (
        evaluate_kind-Charged (strip (text_or_empty repr (get_field "kind" fs)))
          (get_or t.profile_id "") fs (task_id_of repr fs t.current_task_id)
          (with_task repr (task_id_of repr fs t.current_task_id) t))
    | inr e ↦ rw e refl
  ]
  evaluate-Charged (some _) t = refl

  charges-Once :
      (ps : List (Option Value)) (t : A2ACompletionChargeTracker)
      → Fresh (charges repr ps t) t.charged_reference_ids × Once (charges repr ps t)
  unfolding charges add_charge
  charges-Once [] t = (tt, tt)
  charges-Once (p ∷ ps) t =
      after (evaluate repr p t) (evaluate-Charged p t) (charges-Once ps (evaluate repr p t).1)
    where
      after :
          (r : Option PendingA2ACharge × A2ACompletionChargeTracker)
          → Charged t r
          → Fresh (charges repr ps r.1) r.1.charged_reference_ids × Once (charges repr ps r.1)
          → Fresh (add_charge repr r.0 (charges repr ps r.1)) t.charged_reference_ids
            × Once (add_charge repr r.0 (charges repr ps r.1))
      after (none, t') same (fresh, once) = (subst (Fresh (charges repr ps t')) same fresh, once)
      after (some c, t') (new, added) (fresh, once) =
          let (apart, old) =
            Fresh-cons (charges repr ps t') (reference_id c) t.charged_reference_ids
              (subst (Fresh (charges repr ps t')) added fresh) in
          ((new, old), (apart, once))

  -- Over a stream of payloads no two charges have the same reference.
  pub charges_once_lem :
      (ps : List (Option Value)) (t : A2ACompletionChargeTracker) → Once (charges repr ps t)
  charges_once_lem ps t = (charges-Once ps t).1
