-- ===== src/Coins/Tracker.antt =====
-- `A2ACompletionChargeTracker` of src/kafka_a2a/intera_coins.py, and the helpers that it uses. `repr` is
-- Python's `str` of a list or a dict.
use Prim.Native.String.{◌++◌ as cat}
use kafka_a2a.Common.{
  ℕ, String, Bool, true, false, not, ◌&&◌, ◌||◌, Option, none, some, List, [], ◌∷◌, ◌==◌,
  if◌then◌else◌, is_given, get_or, nat_eq,
}
use kafka_a2a.Common.Text.{strip, lower_codes}
use kafka_a2a.Common.Value.{
  Value, Items, Fields, null, obj, arr, nil, cons, is_blank, is_truthy, get_field, text_of,
  first_truthy, is_truthy?,
}

same_codes : List ℕ → List ℕ → Bool
same_codes [] [] = true
same_codes (x ∷ xs) (y ∷ ys) = nat_eq x y && same_codes xs ys
same_codes _ _ = false

-- `s.lower() == t`, where `t` has no upper case
lowered_is : String → String → Bool
unfolding same_codes
lowered_is s t = same_codes (lower_codes s) (lower_codes t)

unfoldable pub build_a2a_coin_reference : String → String → String
build_a2a_coin_reference profile_id task_id = cat "a2a:" (cat profile_id (cat ":" task_id))

pub record PendingA2ACharge : Type 0 where
  pub profile_id : String
  pub task_id : String
  pub conversation_id : Option String
  pub prompt_text : Option String

unfoldable pub reference_id : PendingA2ACharge → String
unfolding build_a2a_coin_reference
reference_id c = build_a2a_coin_reference c.profile_id c.task_id

pub record A2ACompletionChargeTracker : Type 0 where
  pub profile_id : Option String
  pub conversation_id : Option String
  pub prompt_text : Option String
  pub current_task_id : Option String
  pub assistant_result_seen : Bool
  pub charged_reference_ids : List String

-- `x in xs`
unfoldable pub has : String → List String → Bool
has x [] = false
has x (y ∷ ys) = y == x || has x ys

module _ (repr : Value → String) where
  -- `str(v or "")`
  unfoldable pub text_or_empty : Option Value → String
  text_or_empty none = ""
  text_or_empty (some v) = if is_truthy v then text_of repr v else ""

  is_visible : Value → Bool
  unfolding text_or_empty lowered_is
  is_visible (obj fs) =
      let kind = strip (text_or_empty (get_field "kind" fs)) in
      (lowered_is kind "text" && not (strip (text_or_empty (get_field "text" fs)) == ""))
      || (lowered_is kind "data" && not (is_blank (get_or (get_field "data" fs) null)))
  is_visible _ = false

  any_visible : Items → Bool
  unfolding is_visible
  any_visible nil = false
  any_visible (cons v vs) = is_visible v || any_visible vs

  unfoldable pub parts_have_visible_content : Option Value → Bool
  unfolding any_visible
  parts_have_visible_content (some (arr vs)) = any_visible vs
  parts_have_visible_content _ = false

  -- `str(payload.get("taskId") or payload.get("id") or "").strip() or self.current_task_id`
  unfoldable pub task_id_of : Fields → Option String → Option String
  unfolding text_or_empty
  task_id_of fs current =
      let task_id =
        strip (text_or_empty (first_truthy (get_field "taskId" fs) (get_field "id" fs))) in
      if task_id == "" then current else some task_id

  unfoldable pub with_task : Option String → A2ACompletionChargeTracker → A2ACompletionChargeTracker
  with_task task_id t = record t {
    current_task_id = if is_given task_id then task_id else t.current_task_id;
  }

  -- an artifact named "result" shows a result of the assistant
  unfoldable pub see_artifact :
      Option Value → A2ACompletionChargeTracker → A2ACompletionChargeTracker
  unfolding text_or_empty parts_have_visible_content
  see_artifact (some (obj fs)) t = record t {
    assistant_result_seen =
        if strip (text_or_empty (get_field "name" fs)) == "result"
        then t.assistant_result_seen || parts_have_visible_content (get_field "parts" fs)
        else t.assistant_result_seen;
  }
  see_artifact _ t = t

  message_has_content : Option Value → Bool
  unfolding parts_have_visible_content
  message_has_content (some (obj fs)) = parts_have_visible_content (get_field "parts" fs)
  message_has_content _ = false

  -- the end of `evaluate`: what was charged is not charged again
  unfoldable pub charge_once :
      String
      → String
      → A2ACompletionChargeTracker
      → Option PendingA2ACharge × A2ACompletionChargeTracker
  unfolding build_a2a_coin_reference
  charge_once profile_id task_id t =
      let reference = build_a2a_coin_reference profile_id task_id in
      if has reference t.charged_reference_ids then (none, t) else (
        some (record {
          profile_id = profile_id;
          task_id = task_id;
          conversation_id = t.conversation_id;
          prompt_text = t.prompt_text;
        }),
        record t { charged_reference_ids = reference ∷ t.charged_reference_ids },
      )

  -- whether the status, in a payload of these fields, ends a task that has something to show
  unfoldable pub is_chargeable : Fields → Option Value → Option String → Bool → Bool
  unfolding text_or_empty lowered_is message_has_content
  is_chargeable fs (some (obj status)) task_id seen =
      lowered_is (strip (text_or_empty (get_field "state" status))) "completed"
      && is_truthy? (get_field "final" fs)
      && is_given task_id
      && (seen || message_has_content (get_field "message" status))
  is_chargeable fs _ task_id seen = false

  unfoldable pub evaluate_status :
      String
      → Fields
      → Option String
      → A2ACompletionChargeTracker
      → Option PendingA2ACharge × A2ACompletionChargeTracker
  unfolding is_chargeable charge_once
  evaluate_status profile_id fs task_id t =
      if is_chargeable fs (get_field "status" fs) task_id t.assistant_result_seen
      then charge_once profile_id (get_or task_id "") t
      else (none, t)

  unfoldable pub evaluate_kind :
      String
      → String
      → Fields
      → Option String
      → A2ACompletionChargeTracker
      → Option PendingA2ACharge × A2ACompletionChargeTracker
  unfolding see_artifact evaluate_status
  evaluate_kind kind profile_id fs task_id t =
      if kind == "artifact-update"
      then (none, see_artifact (get_field "artifact" fs) t)
      else if kind == "status-update"
      then evaluate_status profile_id fs task_id t
      else (none, t)

  unfoldable pub evaluate_fields :
      String
      → Fields
      → A2ACompletionChargeTracker
      → Option PendingA2ACharge × A2ACompletionChargeTracker
  unfolding task_id_of with_task evaluate_kind text_or_empty
  evaluate_fields profile_id fs t =
      let task_id = task_id_of fs t.current_task_id in
      evaluate_kind (strip (text_or_empty (get_field "kind" fs))) profile_id fs task_id
        (with_task task_id t)

  unfoldable pub evaluate :
      Option Value
      → A2ACompletionChargeTracker
      → Option PendingA2ACharge × A2ACompletionChargeTracker
  unfolding evaluate_fields
  evaluate (some (obj fs)) t =
      if is_given t.profile_id then evaluate_fields (get_or t.profile_id "") fs t else (none, t)
  evaluate _ t = (none, t)

  -- the charges of a stream of payloads
  unfoldable pub add_charge :
      Option PendingA2ACharge → List PendingA2ACharge → List PendingA2ACharge
  add_charge none cs = cs
  add_charge (some c) cs = c ∷ cs

  unfoldable pub charges : List (Option Value) → A2ACompletionChargeTracker → List PendingA2ACharge
  unfolding add_charge evaluate
  charges [] t = []
  charges (p ∷ ps) t = add_charge (evaluate p t).0 (charges ps (evaluate p t).1)
