-- ===== src/Agent/Listing.antt =====
-- What `tasks/list` gives.
use kafka_a2a.Common.{
  ℕ, ◌≤◌, String, ◌≡◌, refl, ap, ◌∙◌, Bool, true, Option, none, some, List, if◌then◌else◌, ok,
  nat_eq, arith, Bool-cases, inl, inr,
}
use kafka_a2a.Common.Int.{ℤ, pos, negsuc, slice_from, slice_to}
use kafka_a2a.Common.Lists.{
  length, keep, All, All-keep, All-keep_of, All-take, All-drop, All-both, length-take, length-drop,
}
use kafka_a2a.Common.Value.{Metadata}
use kafka_a2a.Models.{Task}
use kafka_a2a.Tenancy.{Principal, PrincipalCodec}
use kafka_a2a.Agent.Config.{Ka2aAgentConfig}
use kafka_a2a.Agent.Conversation.{task_principal, owns}
use kafka_a2a.Agent.State.{AgentState, Exec, Reply}
use kafka_a2a.Agent.Access.{require_principal}
use kafka_a2a.Agent.Tasks.{
  TaskListParams, tasks_list, owned_tasks, listed_tasks, has_status, offset_by, limit_to,
}
use kafka_a2a.Agent.Isolation.{requester}

if_true : {A : Type 0} {b : Bool} {x : A} (y : A) → b ≡ true → (if b then x else y) ≡ x
if_true y h = rw h refl

-- A page is a part of what was selected.
module _ (P : Task → Type 0) where
  All-offset_by : (n : Option ℤ) (xs : List Task) → All P xs → All P (offset_by n xs)
  unfolding offset_by slice_from
  All-offset_by none xs h = h
  All-offset_by (some (pos n)) xs h = All-drop P n xs h
  All-offset_by (some (negsuc n)) xs h = All-drop P _ xs h

  All-limit_to : (n : Option ℤ) (xs : List Task) → All P xs → All P (limit_to n xs)
  unfolding limit_to slice_to
  All-limit_to none xs h = h
  All-limit_to (some (pos n)) xs h = elim (Bool-cases (nat_eq n 0)) [
    | inl e ↦ rw e h
    | inr e ↦ rw e (All-take P n xs h)
  ]
  All-limit_to (some (negsuc n)) xs h = All-take P _ xs h

length-offset_by : (n : Option ℤ) (xs : List Task) → length (offset_by n xs) ≤ length xs
unfolding offset_by slice_from
length-offset_by none xs = omega arith
length-offset_by (some (pos n)) xs = length-drop n xs
length-offset_by (some (negsuc n)) xs = length-drop _ xs

length-limit_to : (n : Option ℤ) (xs : List Task) → length (limit_to n xs) ≤ length xs
unfolding limit_to slice_to
length-limit_to none xs = omega arith
length-limit_to (some (pos n)) xs = ground (arith, length-take n xs)
length-limit_to (some (negsuc n)) xs = length-take _ xs

module _ (codec : PrincipalCodec) (cfg : Ka2aAgentConfig) where
  -- a task of the requester, in the state that is asked for
  abbrev pub Listed : Principal → Option String → Task → Type 0
  Listed q status t =
      (owns codec cfg (some q) (task_principal codec cfg t) ≡ true) × (has_status status t ≡ true)

  -- a page of tasks of the requester, with the number of all of them
  abbrev pub IsPage : Principal → TaskListParams → AgentState → List Task → ℕ → Type 0
  IsPage q p s ts total =
      All (Listed q p.status) ts
      × (length ts ≤ total)
      × (total
          ≡ length (
              keep (has_status p.status) (
                keep (λ t. owns codec cfg (some q) (task_principal codec cfg t))
                  (listed_tasks codec cfg p.context_id s.store))))

  owned_tasks_known :
      (metadata : Option Metadata) (tasks : List Task) (s : AgentState) {q : Principal}
      → cfg.tenant_isolation ≡ true
      → requester codec cfg metadata ≡ some q
      → owned_tasks codec cfg metadata tasks s
        ≡ (ok (keep (λ t. owns codec cfg (some q) (task_principal codec cfg t)) tasks), s)
  unfolding owned_tasks require_principal
  owned_tasks_known metadata tasks s isolated asked =
      ap (λ (f : Exec (List Task)). f s) (if_true _ isolated) ∙ rw (asked, require_principal) refl

  -- With tenant isolation on, `tasks/list` of a request that has a principal returns and changes nothing;
  -- each task of the page is one of the requester, in the state asked for; and the total is the
  -- number of all such tasks of the context asked for, whatever the offset and the limit.
  pub tasks_list_owned :
      (p : TaskListParams) (s : AgentState) {q : Principal}
      → cfg.tenant_isolation ≡ true
      → requester codec cfg p.metadata ≡ some q
      → (ts : List Task) × (total : ℕ) × (tasks_list codec cfg p s
          ≡ (ok (Reply.task_list ts total), s))
        × IsPage q p s ts total
  unfolding tasks_list
  tasks_list_owned p s {q} isolated asked =
      rw (owned_tasks_known p.metadata tasks s isolated asked) (
        _,
        _,
        refl,
        (
          All-limit_to (Listed q p.status) p.limit _ (
              All-offset_by (Listed q p.status) p.offset selected (
                All-both _ _ selected
                  (All-keep_of _ (has_status p.status) owned (All-keep is_owned tasks))
                  (All-keep (has_status p.status) owned))),
          omega (
            arith,
            length-limit_to p.limit (offset_by p.offset selected),
            length-offset_by p.offset selected,
          ),
          refl,
        ),
      )
    where
      is_owned : Task → Bool
      is_owned t = owns codec cfg (some q) (task_principal codec cfg t)

      tasks : List Task
      tasks = listed_tasks codec cfg p.context_id s.store

      owned : List Task
      owned = keep is_owned tasks

      selected : List Task
      selected = keep (has_status p.status) owned
