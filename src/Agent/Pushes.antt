-- ===== src/Agent/Pushes.antt =====
-- What the push loop sends.
use kafka_a2a.Common.{
  String, ◌≡◌, refl, sym, ap, ◌∙◌, Bool, true, false, Bool-cases, Option-cases, inl, inr, Option,
  none, some, List, [], ◌∷◌, ◌++◌,
}
use kafka_a2a.Common.Lists.{length}
use kafka_a2a.Models.{TaskEvent, PushNotificationConfig, TaskPushNotificationConfig}
use kafka_a2a.TaskStore.PushConfigs.{list_push_notification_configs}
use kafka_a2a.Agent.State.{AgentState}
use kafka_a2a.Agent.Delivery.{
  ParsedUrl, Delivery, routed, attempt, deliver_push, deliver_all, deliver_entry, push_turns,
  goes_on,
}
use mathlib.Core.List.{append_assoc, append-nil}

-- `urlparse` and the deliveries are arguments, as in the loop.
module _ (urlparse : String → Option ParsedUrl) (succeeds : Delivery → Bool) where
  -- What an event is sent as to the configs of its task: each gets its delivery in turn, up to and with
  -- the first delivery that raises, or up to the first url that cannot be parsed.
  pub data Delivers (task_id : String) (event : TaskEvent)
      : List TaskPushNotificationConfig → List Delivery → Type 0 where
    no_more : Delivers task_id event [] []
    unparsed :
        (item : TaskPushNotificationConfig) (items : List TaskPushNotificationConfig)
        → urlparse item.push_notification_config.url ≡ none
        → Delivers task_id event (item ∷ items) []
    nowhere :
        (item : TaskPushNotificationConfig) (items : List TaskPushNotificationConfig)
        (parsed : ParsedUrl) (ds : List Delivery)
        → urlparse item.push_notification_config.url ≡ some parsed
        → routed urlparse succeeds task_id event item.push_notification_config parsed ≡ none
        → Delivers task_id event items ds
        → Delivers task_id event (item ∷ items) ds
    delivered :
        (item : TaskPushNotificationConfig) (items : List TaskPushNotificationConfig)
        (parsed : ParsedUrl) (d : Delivery) (ds : List Delivery)
        → urlparse item.push_notification_config.url ≡ some parsed
        → routed urlparse succeeds task_id event item.push_notification_config parsed ≡ some d
        → succeeds d ≡ true
        → Delivers task_id event items ds
        → Delivers task_id event (item ∷ items) (d ∷ ds)
    failing :
        (item : TaskPushNotificationConfig) (items : List TaskPushNotificationConfig)
        (parsed : ParsedUrl) (d : Delivery)
        → urlparse item.push_notification_config.url ≡ some parsed
        → routed urlparse succeeds task_id event item.push_notification_config parsed ≡ some d
        → succeeds d ≡ false
        → Delivers task_id event (item ∷ items) (d ∷ [])

  -- what the entries of a queue are sent as, each to the configs that the store has for its task
  pub data DeliversAll (s : AgentState) : List (String × TaskEvent) → List Delivery → Type 0 where
    no_entry : DeliversAll s [] []
    entry :
        (task_id : String) (event : TaskEvent) (queue : List (String × TaskEvent))
        (ds others : List Delivery)
        → Delivers task_id event (list_push_notification_configs task_id s.store) ds
        → DeliversAll s queue others
        → DeliversAll s ((task_id, event) ∷ queue) (ds ++ others)

  push_unparsed :
      (task_id : String) (event : TaskEvent) (config : PushNotificationConfig)
      → urlparse config.url ≡ none
      → deliver_push urlparse succeeds task_id event config ≡ ([], false)
  unfolding deliver_push
  push_unparsed task_id event config h = rw (h, deliver_push) refl

  push_parsed :
      (task_id : String) (event : TaskEvent) (config : PushNotificationConfig) {parsed : ParsedUrl}
      {o : Option Delivery}
      → urlparse config.url ≡ some parsed
      → routed urlparse succeeds task_id event config parsed ≡ o
      → deliver_push urlparse succeeds task_id event config ≡ attempt urlparse succeeds o
  unfolding deliver_push
  push_parsed task_id event config h e = rw (h, deliver_push, e) refl

  deliver_all-Delivers :
      (task_id : String) (event : TaskEvent) (items : List TaskPushNotificationConfig)
      → Delivers task_id event items (deliver_all urlparse succeeds task_id event items).0
  unfolding deliver_all
  deliver_all-Delivers task_id event [] = no_more
  deliver_all-Delivers task_id event (item ∷ items) =
      let config = item.push_notification_config in
      let later = deliver_all-Delivers task_id event items in
      elim (Option-cases (urlparse config.url)) [
        | inl bad ↦ rw (push_unparsed task_id event config bad) (unparsed item items bad)
        | inr (parsed, good) ↦
            elim (Option-cases (routed urlparse succeeds task_id event config parsed)) [
              | inl away ↦
                  rw (push_parsed task_id event config good away)
                    (nowhere item items parsed _ good away later)
              | inr (d, known) ↦ elim (Bool-cases (succeeds d)) [
                | inl fine ↦
                    rw (push_parsed task_id event config good known, fine)
                      (delivered item items parsed d _ good known fine later)
                | inr raised ↦
                    rw (push_parsed task_id event config good known, raised)
                      (failing item items parsed d good known raised)
              ]
            ]
      ]

  goes_on_lem : (b : Bool) → goes_on b ≡ true
  goes_on_lem true = refl
  goes_on_lem false = refl

  drains :
      (s : AgentState) (queue : List (String × TaskEvent)) (sent : List Delivery)
      → (ds : List Delivery) × (push_turns urlparse succeeds
            (length queue)
            (record s { push_queue = some queue }, sent, true)
          ≡ (record s { push_queue = some [] }, sent ++ ds, true))
        × DeliversAll s queue ds
  unfolding push_turns deliver_entry
  drains s [] sent =
      ([], ap (λ l. (record s { push_queue = some [] }, l, true)) (sym (append-nil sent)), no_entry)
  drains s ((task_id, event) ∷ rest) sent =
      let tried = deliver_entry urlparse succeeds s (task_id, event) in
      let (others, turns, all) = drains s rest (sent ++ tried.0) in
      (
        tried.0 ++ others,
        ap
              (λ b.
                push_turns urlparse succeeds (length rest)
                  (record s { push_queue = some rest }, sent ++ tried.0, b))
              (goes_on_lem tried.1)
            ∙ turns
            ∙ ap (λ l. (record s { push_queue = some [] }, l, true))
                (append_assoc sent tried.0 others),
        entry task_id event rest tried.0 others
            (deliver_all-Delivers task_id event (list_push_notification_configs task_id s.store))
            all,
      )

  -- As many rounds of the push loop as its queue has entries empty the queue, and the loop still runs,
  -- whatever deliveries raise. What was sent is followed by the deliveries of the entries in the order
  -- of the queue: of each, to the configs that the store has for its task, in their order, up to and
  -- with the first delivery that raises, or up to the first url that cannot be parsed.
  pub push_turns_lem :
      (s : AgentState) (queue : List (String × TaskEvent)) (sent : List Delivery)
      → s.push_queue ≡ some queue
      → (ds : List Delivery) × (push_turns urlparse succeeds (length queue) (s, sent, true)
          ≡ (record s { push_queue = some [] }, sent ++ ds, true))
        × DeliversAll s queue ds
  push_turns_lem s queue sent held =
      let (ds, turns, all) = drains s queue sent in
      (
        ds,
        ap
              (λ q.
                push_turns urlparse succeeds (length queue)
                  (record s { push_queue = q }, sent, true))
              held
            ∙ turns,
        all,
      )
