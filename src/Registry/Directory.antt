-- ===== src/Registry/Directory.antt =====
-- `KafkaAgentDirectory` of src/kafka_a2a/registry/directory.py. A time is a number, and `now` is what the
-- clock says. A time before the clock's origin is 0, which no entry is before.
use kafka_a2a.Common.{
  ℕ, ◌-◌, String, Bool, false, Option, none, some, List, [], ◌∷◌, ltb, if◌then◌else◌,
}
use kafka_a2a.Common.Dict.{Dict, lookup, insert, remove, values}
use kafka_a2a.Registry.Entries.{AgentCard, RegistryEntry}

pub record DirectoryEntry : Type 0 where
  pub card : AgentCard
  pub last_seen : ℕ

abbrev pub Directory : Type 0
Directory = Dict DirectoryEntry

unfoldable pub get : String → Directory → Option AgentCard
get agent_name d = elim (lookup agent_name d) [ none ↦ none | some e ↦ some e.card ]

cards : List DirectoryEntry → List AgentCard
cards [] = []
cards (e ∷ es) = e.card ∷ cards es

unfoldable pub list : Directory → List AgentCard
unfolding cards
list d = cards (values d)

-- `entry_ttl_s` is none where entries do not age
unfoldable pub is_stale : Option ℕ → ℕ → ℕ → Bool
is_stale none now published_at = false
is_stale (some ttl) now published_at = ltb published_at (now - ttl)

-- what an entry says of its agent
unfoldable pub seen : Option ℕ → ℕ → RegistryEntry → Option DirectoryEntry
unfolding is_stale
seen ttl now e = if e.deleted then none else elim e.card [
  | none ↦ none
  | some card ↦
      if is_stale ttl now e.published_at
      then none
      else some (record { card = card; last_seen = e.published_at })
]

unfoldable pub put : String → Option DirectoryEntry → Directory → Directory
put name none d = remove name d
put name (some e) d = insert name e d

unfoldable pub apply_registry_entry : Option ℕ → ℕ → RegistryEntry → Directory → Directory
unfolding put seen
apply_registry_entry ttl now e d = put e.agent_name (seen ttl now e) d

-- the round of `_prune` over the entries
unfoldable pub prune_over : ℕ → Directory → Directory → Directory
prune_over cutoff [] d = d
prune_over cutoff ((name, e) ∷ es) d =
    prune_over cutoff es (if ltb e.last_seen cutoff then remove name d else d)

unfoldable pub prune : Option ℕ → ℕ → Directory → Directory
unfolding prune_over
prune none now d = d
prune (some ttl) now d = prune_over (now - ttl) d d

-- what one of the two tasks of `start` does, with the time at which it does it
pub data Act : Type 0 where
  applies : ℕ → RegistryEntry → Act
  prunes : ℕ → Act

abbrev pub act : Option ℕ → Act → Directory → Directory
act ttl (applies now e) d = apply_registry_entry ttl now e d
act ttl (prunes now) d = prune ttl now d

unfoldable pub acts : Option ℕ → List Act → Directory → Directory
acts ttl [] d = d
acts ttl (a ∷ rest) d = acts ttl rest (act ttl a d)
