-- ===== src/ContextMemory.antt =====
-- src/kafka_a2a/context_memory.py: the memory of a context, and whose it is. The record of a memory
-- is its JSON fields, with the time at which it was written.
pub mod Owners
use Prim.Native.String.{◌++◌ as cat}
use kafka_a2a.Common.{String, ◌≡◌, ◌≢◌, Option, none, some, List, or_text}
use kafka_a2a.Common.Dict.{Dict, lookup, insert, lookup-insert_self, lookup-insert_ne}
use kafka_a2a.Common.Value.{Fields}
use kafka_a2a.Tenancy.{Principal}

pub record ContextMemory : Type 0 where
  pub summary : Option String
  pub profile : Option Fields
  pub workflow_state : Option Fields
  pub analysis : Option Fields
  pub fact_packets : Option (List Fields)
  pub updated_at : Option String

unfoldable pub context_memory_key : String → String → Option Principal → String
context_memory_key namespace context_id none =
    cat namespace (cat ":context:" (cat context_id ":memory"))
context_memory_key namespace context_id (some p) = cat namespace (
    cat ":tenant:" (
      cat (or_text p.tenant_id "-")
        (cat ":user:" (cat p.user_id (cat ":context:" (cat context_id ":memory"))))))

pub record InMemoryContextMemoryStore : Type 0 where
  pub namespace : String
  pub mem : Dict ContextMemory

unfoldable pub get : String → Option Principal → InMemoryContextMemoryStore → Option ContextMemory
unfolding context_memory_key
get context_id principal s = lookup (context_memory_key s.namespace context_id principal) s.mem

-- the memory with the time at which it is written, unless it has one
unfoldable pub stamped : String → ContextMemory → ContextMemory
stamped now memory = record memory {
  updated_at = elim memory.updated_at [ none ↦ some now | some t ↦ some t ];
}

unfoldable pub set :
    String
    → String
    → Option Principal
    → ContextMemory
    → InMemoryContextMemoryStore
    → InMemoryContextMemoryStore
unfolding context_memory_key stamped
set now context_id principal memory s = record s {
  mem = insert (context_memory_key s.namespace context_id principal) (stamped now memory) s.mem;
}

-- A memory that is set is read back, with the time at which it was set unless it had one.
pub get-set_same :
    (now context_id : String) (principal : Option Principal) (memory : ContextMemory)
    (s : InMemoryContextMemoryStore)
    → get context_id principal (set now context_id principal memory s) ≡ some (stamped now memory)
unfolding get set
get-set_same now context_id principal memory s = lookup-insert_self _ (stamped now memory) s.mem

-- what is read under another key
pub get-set_other :
    (now context_id other_id : String) (principal other : Option Principal) (memory : ContextMemory)
    (s : InMemoryContextMemoryStore)
    → context_memory_key s.namespace context_id principal
      ≢ context_memory_key s.namespace other_id other
    → get other_id other (set now context_id principal memory s) ≡ get other_id other s
unfolding get set
get-set_other now context_id other_id principal other memory s h =
    lookup-insert_ne _ _ (stamped now memory) s.mem h
