-- ===== src/TaskStore/Delivery.antt =====
-- What a reader of `iter_events` has yielded, still holds and will find in its queue is the log of its
-- task, whatever the other callers of the store do meanwhile.
use mathlib.Core.List.{append-nil, append_assoc}
use kafka_a2a.Common.{
  ℕ, ◌<◌, String, ◌≡◌, refl, ◌≢◌, ◌∙◌, ap, false, Option, none, some, List, [], ◌∷◌, ◌++◌, ◌==◌,
  eq_iff, nat_eq, if◌then◌else◌, get_or, arith, Bool-cases, inl, inr, Option-cases,
}
use kafka_a2a.Common.Lists.{keep}
use kafka_a2a.Common.Dict.{Dict, lookup, insert, contains, lookup-insert}
use kafka_a2a.Common.Value.{Metadata}
use kafka_a2a.Models.{Task, Message, TaskEvent, PushNotificationConfig}
use kafka_a2a.TaskStore.State.{TaskEventRecord, InMemoryTaskStore, create_task}
use kafka_a2a.TaskStore.Append.{next_sequence, publish}
use kafka_a2a.TaskStore.Reader.{Reader, is_after, subscribe, unsubscribe}
use kafka_a2a.TaskStore.PushConfigs.{set_push_notification_config, delete_push_notification_config}
use kafka_a2a.TaskStore.Ops.{apply, set_push, delete_push}
use kafka_a2a.TaskStore.Log.{log}
use kafka_a2a.TaskStore.Queues.{
  count, copies, put_all-count, subscribed, subscribed-set_default, count-add_ne, count-drop_ne,
}

pub record Follows (rd : Reader) (s : InMemoryTaskStore) (skipped : List TaskEventRecord)
    : Type 0 where
  pub seen : List TaskEventRecord
  pub complete : log rd.task_id s ≡ skipped ++ (seen ++ (rd.replay ++ s.queues rd.queue))
  pub output : rd.yielded ≡ keep (is_after rd.after_sequence) seen
  pub here : count rd.queue (subscribed rd.task_id s.subscribers) ≡ 1
  pub elsewhere : (j : String) → rd.task_id ≢ j → count rd.queue (subscribed j s.subscribers) ≡ 0
  pub opened : rd.queue < s.next_queue

-- the record that `publish` appends
abbrev pub published : String → TaskEvent → InMemoryTaskStore → TaskEventRecord
published id event s = record { sequence = next_sequence (log id s); event = event }

pub log-insert :
    (id j : String) (records : List TaskEventRecord) (events : Dict (List TaskEventRecord))
    → get_or (lookup j (insert id records events)) []
      ≡ (if id == j then records else get_or (lookup j events) [])
log-insert id j records events = ground (arith, lookup-insert id j records events)

pub log-publish :
    (id j : String) (event : TaskEvent) (s : InMemoryTaskStore)
    → log j (publish id event s)
      ≡ (if id == j then log id s ++ published id event s ∷ [] else log j s)
unfolding publish
log-publish id j event s = log-insert id j _ s.events

pub queue-publish :
    (id : String) (event : TaskEvent) (s : InMemoryTaskStore) (q : ℕ)
    → (publish id event s).queues q
      ≡ s.queues q ++ copies (count q (subscribed id s.subscribers)) (published id event s)
unfolding publish
queue-publish id event s q = put_all-count (subscribed id s.subscribers) _ s.queues q

pub subscribers-publish :
    (id : String) (event : TaskEvent) (s : InMemoryTaskStore)
    → (publish id event s).subscribers ≡ s.subscribers
unfolding publish
subscribers-publish id event s = refl

pub next_queue-publish :
    (id : String) (event : TaskEvent) (s : InMemoryTaskStore)
    → (publish id event s).next_queue ≡ s.next_queue
unfolding publish
next_queue-publish id event s = refl

regroup {ℓ} :
    {A : Type ℓ} (a b c d e : List A) → (a ++ (b ++ (c ++ d))) ++ e ≡ a ++ (b ++ (c ++ (d ++ e)))
regroup a b c d e = simp append_assoc

module _ (rd : Reader) (skipped : List TaskEventRecord) where
  pub publish-Follows :
      (id : String) (event : TaskEvent) (s : InMemoryTaskStore)
      → Follows rd s skipped
      → Follows rd (publish id event s) skipped
  unfolding copies
  publish-Follows id event s h = record {
    seen = h.seen;
    complete = elim (Bool-cases (id == rd.task_id)) [
      | inl same ↦
          let p : id ≡ rd.task_id = (eq_iff id rd.task_id).0 same in
          rw (log-publish, same, queue-publish, p, h.here)
            (ap (λ l. l ++ published rd.task_id event s ∷ []) h.complete
              ∙ regroup skipped h.seen rd.replay (s.queues rd.queue) _)
      | inr other ↦
          rw
            (
              log-publish,
              other,
              queue-publish,
              h.elsewhere id (λ p. ground (arith, eq_iff id rd.task_id)),
              append-nil,
            )
            h.complete
    ];
    output = h.output;
    here = rw subscribers-publish h.here;
    elsewhere = λ j n. rw subscribers-publish (h.elsewhere j n);
    opened = rw next_queue-publish h.opened;
  }

  -- the fields that `Follows` reads
  pub same-Follows :
      (s s' : InMemoryTaskStore)
      → s'.events ≡ s.events
      → s'.subscribers ≡ s.subscribers
      → s'.queues ≡ s.queues
      → s'.next_queue ≡ s.next_queue
      → Follows rd s skipped
      → Follows rd s' skipped
  same-Follows s s' e b q n h = record {
    seen = h.seen;
    complete = rw (e, q) h.complete;
    output = h.output;
    here = rw b h.here;
    elsewhere = rw b h.elsewhere;
    opened = rw n h.opened;
  }

  pub tasks-Follows :
      (tasks : Dict Task) (s : InMemoryTaskStore)
      → Follows rd s skipped
      → Follows rd (record s { tasks = tasks }) skipped
  tasks-Follows tasks s h = same-Follows s _ refl refl refl refl h

  pub subscribe-Follows :
      (id : String) (s : InMemoryTaskStore)
      → Follows rd s skipped
      → Follows rd (subscribe id s).1 skipped
  unfolding subscribe
  subscribe-Follows id s h = record {
    seen = h.seen;
    complete = h.complete ∙ ap (λ l. skipped ++ (h.seen ++ (rd.replay ++ l))) untouched;
    output = h.output;
    here = count-add_ne id rd.task_id _ _ s.subscribers newer ∙ h.here;
    elsewhere = λ j n. count-add_ne id j _ _ s.subscribers newer ∙ h.elsewhere j n;
    opened = omega (arith, h.opened);
  }
    where
      newer : s.next_queue ≢ rd.queue
      newer = omega (arith, h.opened)

      untouched :
          s.queues rd.queue ≡ (if nat_eq s.next_queue rd.queue then [] else s.queues rd.queue)
      untouched = ground (arith, newer)

  pub unsubscribe-Follows :
      (id : String) (q : ℕ) (s : InMemoryTaskStore)
      → q ≢ rd.queue
      → Follows rd s skipped
      → Follows rd (unsubscribe id q s) skipped
  unfolding unsubscribe
  unsubscribe-Follows id q s ne h = elim (Option-cases (lookup id s.subscribers)) [
    | inl e ↦ rw (e, unsubscribe) h
    | inr (qs, e) ↦
        rw (e, unsubscribe)
          (record {
            seen = h.seen;
            complete = h.complete;
            output = h.output;
            here = count-drop_ne id rd.task_id _ _ s.subscribers ne qs e ∙ h.here;
            elsewhere = λ j n. count-drop_ne id j _ _ s.subscribers ne qs e ∙ h.elsewhere j n;
            opened = h.opened;
          })
  ]

  pub create-Follows :
      (id fresh : String) (now : ℕ) (message : Message) (context_id : Option String)
      (metadata : Option Metadata) (s : InMemoryTaskStore)
      → id ≢ rd.task_id
      → Follows rd s skipped
      → Follows rd (create_task id fresh now message context_id metadata s).1 skipped
  unfolding create_task
  create-Follows id fresh now message context_id metadata s ne h = record {
    seen = h.seen;
    complete = rw (log-insert, not_this) h.complete;
    output = h.output;
    here = rw subscribed-set_default h.here;
    elsewhere = λ j n. rw subscribed-set_default (h.elsewhere j n);
    opened = h.opened;
  }
    where
      not_this : (id == rd.task_id) ≡ false
      not_this = ground (arith, eq_iff id rd.task_id, ne)

  pub set_push-Follows :
      (id : String) (c : PushNotificationConfig) (s : InMemoryTaskStore)
      → Follows rd s skipped
      → Follows rd (apply (set_push id c) s) skipped
  unfolding apply set_push_notification_config
  set_push-Follows id c s h = elim (Bool-cases (contains id s.tasks)) [
    | inl e ↦ rw e (same-Follows s _ refl refl refl refl h)
    | inr e ↦ rw e h
  ]

  pub delete_push-Follows :
      (id : String) (c : Option String) (s : InMemoryTaskStore)
      → Follows rd s skipped
      → Follows rd (apply (delete_push id c) s) skipped
  unfolding apply delete_push_notification_config
  delete_push-Follows id none s h = same-Follows s _ refl refl refl refl h
  delete_push-Follows id (some c) s h =
      same-Follows s _ (ground arith) (ground arith) (ground arith) (ground arith) h
