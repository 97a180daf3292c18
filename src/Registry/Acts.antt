-- ===== src/Registry/Acts.antt =====
-- The keys of the directory stay apart, and what an entry does under each.
use kafka_a2a.Common.{
  ℕ, ◌-◌, String, ◌≡◌, refl, Option, none, some, List, [], ◌∷◌, ◌++◌, ◌==◌, ltb, if◌then◌else◌,
  Bool-cases, inl, inr,
}
use kafka_a2a.Common.Dict.{lookup, lookup-insert, lookup-remove}
use kafka_a2a.Common.Distinct.{Distinct, insert-Distinct, remove-Distinct}
use kafka_a2a.Registry.Directory.{
  DirectoryEntry, Directory, seen, put, apply_registry_entry, prune_over, prune, Act, applies,
  prunes, act, acts,
}

pub lookup-put :
    (name other : String) (e : Option DirectoryEntry) (d : Directory)
    → lookup other (put name e d) ≡ (if name == other then e else lookup other d)
unfolding put
lookup-put name other none d = lookup-remove name other d
lookup-put name other (some e) d = lookup-insert name other e d

pub put-Distinct :
    (name : String) (e : Option DirectoryEntry) (d : Directory)
    → Distinct d
    → Distinct (put name e d)
unfolding put
put-Distinct name none d h = remove-Distinct name d h
put-Distinct name (some e) d h = insert-Distinct name e d h

pub prune_over-Distinct :
    (cutoff : ℕ) (es d : Directory) → Distinct d → Distinct (prune_over cutoff es d)
unfolding prune_over
prune_over-Distinct cutoff [] d h = h
prune_over-Distinct cutoff ((name, e) ∷ es) d h = elim (Bool-cases (ltb e.last_seen cutoff)) [
  | inl old ↦ rw (old, prune_over) (prune_over-Distinct cutoff es _ (remove-Distinct name d h))
  | inr new ↦ rw (new, prune_over) (prune_over-Distinct cutoff es d h)
]

pub act-Distinct : (ttl : Option ℕ) (a : Act) (d : Directory) → Distinct d → Distinct (act ttl a d)
unfolding apply_registry_entry prune
act-Distinct ttl (applies now e) d h = put-Distinct e.agent_name (seen ttl now e) d h
act-Distinct none (prunes now) d h = h
act-Distinct (some ttl) (prunes now) d h = prune_over-Distinct (now - ttl) d d h

pub acts-Distinct :
    (ttl : Option ℕ) (l : List Act) (d : Directory) → Distinct d → Distinct (acts ttl l d)
unfolding acts
acts-Distinct ttl [] d h = h
acts-Distinct ttl (a ∷ rest) d h = acts-Distinct ttl rest (act ttl a d) (act-Distinct ttl a d h)

pub acts-append :
    (ttl : Option ℕ) (before after : List Act) (d : Directory)
    → acts ttl (before ++ after) d ≡ acts ttl after (acts ttl before d)
unfolding acts
acts-append ttl [] after d = refl
acts-append ttl (a ∷ before) after d = acts-append ttl before after (act ttl a d)
