-- ===== src/Redis/Keys.antt =====
-- The keys of the store. `create_task` gives a task a `uuid4` as its id, a text of 36 characters, so
-- that the keys of two such tasks never meet.
use Prim.Native.String.{◌++◌ as cat, count}
use text.Mathlib.TextLemmas.{
  append_inj, append_cancel_left, append_assoc, append-nil, length-append,
}
use kafka_a2a.Common.{String, ◌≡◌, ◌≢◌, refl, ap, ◌∙◌, sym, arith, ◌==◌}
use mathlib.Core.Bool.{false≢true}

-- `f"{self._cfg.namespace}:tasks"`
unfoldable pub tasks_index_key : String → String
tasks_index_key namespace = cat namespace ":tasks"

unfoldable pub context_tasks_index_key : String → String → String
context_tasks_index_key namespace context_id =
    cat namespace (cat ":context:" (cat context_id ":tasks"))

-- `f"{self._cfg.namespace}:task:{task_id}"` and what the other keys of a task add to it
unfoldable pub task_key : String → String → String
task_key namespace task_id = cat (cat namespace ":task:") task_id

unfoldable pub seq_key : String → String → String
unfolding task_key
seq_key namespace task_id = cat (task_key namespace task_id) ":seq"

unfoldable pub events_key : String → String → String
unfolding task_key
events_key namespace task_id = cat (task_key namespace task_id) ":events"

unfoldable pub push_cfgs_key : String → String → String
unfolding task_key
push_cfgs_key namespace task_id = cat (task_key namespace task_id) ":push_cfgs"

-- an id as `uuid4` makes it
abbrev pub IsUuid : String → Type 0
IsUuid id = count id ≡ 36

module _ (namespace : String) where
  -- the key of a task with what it adds
  abbrev pub member_key : String → String → String
  member_key id suffix = cat (task_key namespace id) suffix

  pub member_key-injective :
      (id other a b : String)
      → IsUuid id
      → IsUuid other
      → member_key id a ≡ member_key other b
      → (id ≡ other) × (a ≡ b)
  unfolding task_key
  member_key-injective id other a b p q e =
      let same = append_inj e (
        omega (
          arith,
          length-append (cat namespace ":task:") id,
          length-append (cat namespace ":task:") other,
        )) in
      (append_cancel_left (cat namespace ":task:") _ _ same.0, same.1)

  pub task_key-member : (id : String) → task_key namespace id ≡ member_key id ""
  task_key-member id = sym (append-nil (task_key namespace id))

  member_key-parts : (id a : String) → member_key id a ≡ cat namespace (cat ":task:" (cat id a))
  unfolding task_key
  member_key-parts id a =
      append_assoc (cat namespace ":task:") id a ∙ append_assoc namespace ":task:" (cat id a)

  -- no key of a task is the index of the tasks or of a context
  pub task_ne_index : (id a : String) → tasks_index_key namespace ≢ member_key id a
  unfolding task_key tasks_index_key
  task_ne_index id a e = absurd (word_differ (append_inj {t₁ = ""} (append_nil_r ∙ tail) refl).0)
    where
      append_nil_r : cat ":tasks" "" ≡ ":tasks"
      append_nil_r = refl

      tail : ":tasks" ≡ cat ":task:" (cat id a)
      tail = append_cancel_left namespace _ _ (e ∙ member_key-parts id a)

      word_differ : ◌≢◌ {A = String} ":tasks" ":task:"
      word_differ h = false≢true (ap (λ s. s == ":task:") h)

  pub task_ne_context :
      (id context_id a : String) → context_tasks_index_key namespace context_id ≢ member_key id a
  unfolding task_key context_tasks_index_key
  task_ne_context id context_id a e = absurd (word_differ (append_inj parts refl).0)
    where
      parts : cat ":c" (cat "ontext:" (cat context_id ":tasks")) ≡ cat ":t" (cat "ask:" (cat id a))
      parts =
          sym (append_assoc ":c" "ontext:" (cat context_id ":tasks"))
          ∙ append_cancel_left namespace _ _ (e ∙ member_key-parts id a)
          ∙ append_assoc ":t" "ask:" (cat id a)

      word_differ : ◌≢◌ {A = String} ":c" ":t"
      word_differ h = false≢true (ap (λ s. s == ":t") h)
