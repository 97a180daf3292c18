-- ===== src/Registry/Latest.antt =====
-- What the directory knows of an agent, while its two tasks run: one applies the entries of the watch,
-- the other prunes, in any order.
use mathlib.Core.Path.{subst}
use kafka_a2a.Common.{
  ℕ, ◌+◌, ◌-◌, String, ◌≡◌, refl, ◌≢◌, ◌∙◌, ap, Bool, true, false, not, ◌&&◌, Option, none, some,
  List, [], ◌∷◌, ◌++◌, ◌==◌, ltb, leb, eq_iff, eq_refl, if◌then◌else◌, arith, Bool-cases,
  Option-cases, inl, inr,
}
use kafka_a2a.Common.Dict.{lookup, remove, lookup-remove}
use kafka_a2a.Common.Distinct.{Distinct}
use kafka_a2a.Common.Lists.{All}
use kafka_a2a.Registry.Entries.{AgentCard, RegistryEntry}
use kafka_a2a.Registry.Acts.{lookup-put, act-Distinct, acts-Distinct, acts-append}
use kafka_a2a.Registry.Directory.{
  DirectoryEntry, Directory, get, is_stale, seen, apply_registry_entry, prune_over, prune, Act,
  applies, prunes, act, acts,
}

-- The act does not apply an entry of this agent.
abbrev pub IsOther : String → Act → Type 0
IsOther name (applies now e) = e.agent_name ≢ name
IsOther name (prunes now) = Unit

-- An entry is fresh up to its age, and outlasts the prunings that find it fresh.
abbrev pub is_fresh : Option ℕ → ℕ → ℕ → Bool
is_fresh none published_at now = true
is_fresh (some ttl) published_at now = leb now (published_at + ttl)

abbrev pub outlasts : Option ℕ → ℕ → List Act → Bool
outlasts ttl published_at [] = true
outlasts ttl published_at (applies now e ∷ rest) = outlasts ttl published_at rest
outlasts ttl published_at (prunes now ∷ rest) =
    is_fresh ttl published_at now && outlasts ttl published_at rest

is_stale_lem :
    (ttl : Option ℕ) (now published_at : ℕ)
    → is_stale ttl now published_at ≡ not (is_fresh ttl published_at now)
unfolding is_stale
is_stale_lem none now published_at = refl
is_stale_lem (some ttl) now published_at = ground arith

-- what a pruning makes of what was known
abbrev pruned : ℕ → Option DirectoryEntry → Option DirectoryEntry → Option DirectoryEntry
pruned cutoff none o = o
pruned cutoff (some e) o = if ltb e.last_seen cutoff then none else o

lookup-prune_over :
    (cutoff : ℕ) (name : String) (es d : Directory)
    → Distinct es
    → lookup name (prune_over cutoff es d) ≡ pruned cutoff (lookup name es) (lookup name d)
unfolding prune_over lookup
lookup-prune_over cutoff name [] d h = refl
lookup-prune_over cutoff name ((j, e) ∷ es) d h =
    lookup-prune_over cutoff name es (if ltb e.last_seen cutoff then remove j d else d) h.1
    ∙ elim (Bool-cases (j == name)) [
      | inl same ↦
          rw (same, subst (λ k. lookup k es ≡ none) ((eq_iff j name).0 same) h.0)
            (elim (Bool-cases (ltb e.last_seen cutoff)) [
              | inl old ↦ rw (old, lookup-remove j name d, same) refl
              | inr new ↦ rw new refl
            ])
      | inr different ↦ rw different (
          ap (pruned cutoff (lookup name es)) (elim (Bool-cases (ltb e.last_seen cutoff)) [
            | inl old ↦ rw (old, lookup-remove j name d, different) refl
            | inr new ↦ rw new refl
          ]))
    ]

-- what is known of an agent while no entry of it comes
abbrev remains : Option ℕ → List Act → Option DirectoryEntry → Option DirectoryEntry
remains ttl l none = none
remains ttl l (some e) = if outlasts ttl e.last_seen l then some e else none

lookup-prune :
    (ttl : Option ℕ) (now : ℕ) (name : String) (d : Directory)
    → Distinct d
    → lookup name (prune ttl now d) ≡ remains ttl (prunes now ∷ []) (lookup name d)
unfolding prune
lookup-prune none now name d h = elim (Option-cases (lookup name d)) [
  | inl e ↦ rw e refl
  | inr (x, e) ↦ rw e refl
]
lookup-prune (some ttl) now name d h =
    lookup-prune_over (now - ttl) name d d h
    ∙ elim (Option-cases (lookup name d)) [ inl e ↦ rw e refl | inr (x, e) ↦ rw e (ground arith) ]

remains-prunes :
    (ttl : Option ℕ) (now : ℕ) (rest : List Act) (o : Option DirectoryEntry)
    → remains ttl rest (remains ttl (prunes now ∷ []) o) ≡ remains ttl (prunes now ∷ rest) o
remains-prunes ttl now rest none = refl
remains-prunes ttl now rest (some e) = elim (Bool-cases (is_fresh ttl e.last_seen now)) [
  | inl fresh ↦ rw fresh refl
  | inr stale ↦ rw stale refl
]

lookup-apply :
    (ttl : Option ℕ) (now : ℕ) (e : RegistryEntry) (name : String) (d : Directory)
    → lookup name (apply_registry_entry ttl now e d)
      ≡ (if e.agent_name == name then seen ttl now e else lookup name d)
unfolding apply_registry_entry
lookup-apply ttl now e name d = lookup-put e.agent_name name (seen ttl now e) d

acts-others :
    (ttl : Option ℕ) (name : String) (l : List Act) (d : Directory)
    → All (IsOther name) l
    → Distinct d
    → lookup name (acts ttl l d) ≡ remains ttl l (lookup name d)
unfolding acts
acts-others ttl name [] d a h = elim (Option-cases (lookup name d)) [
  | inl e ↦ rw e refl
  | inr (x, e) ↦ rw e refl
]
acts-others ttl name (applies now e ∷ l) d (other, a) h =
    acts-others ttl name l (act ttl (applies now e) d) a (act-Distinct ttl (applies now e) d h)
    ∙ ap (remains ttl l) same
    ∙ remains-applies (lookup name d)
  where
    same : lookup name (act ttl (applies now e) d) ≡ lookup name d
    same = lookup-apply ttl now e name d ∙ rw differ refl
      where
        differ : (e.agent_name == name) ≡ false
        differ = ground (arith, eq_iff e.agent_name name, other)

    remains-applies :
        (o : Option DirectoryEntry) → remains ttl l o ≡ remains ttl (applies now e ∷ l) o
    remains-applies none = refl
    remains-applies (some x) = refl
acts-others ttl name (prunes now ∷ l) d a h =
    acts-others ttl name l (prune ttl now d) a.1 (act-Distinct ttl (prunes now) d h)
    ∙ ap (remains ttl l) (lookup-prune ttl now name d h)
    ∙ remains-prunes ttl now l (lookup name d)

abbrev card_of : Option DirectoryEntry → Option AgentCard
card_of none = none
card_of (some e) = some e.card

get_lem : (name : String) (d : Directory) → get name d ≡ card_of (lookup name d)
unfolding get
get_lem name d = ground arith

-- the card of an entry that is applied and then pruned
card_of-seen :
    (ttl : Option ℕ) (now : ℕ) (e : RegistryEntry) (after : List Act) (card : Option AgentCard)
    → e.card ≡ card
    → card_of (remains ttl after (seen ttl now e))
      ≡ (if not e.deleted && outlasts ttl e.published_at (prunes now ∷ after) then card else none)
unfolding seen
card_of-seen ttl now e after card known = elim (Bool-cases e.deleted) [
  | inl gone ↦ rw gone refl
  | inr here ↦ rw here (rw known (shown card))
]
  where
    shown :
        (card : Option AgentCard)
        → card_of (
            remains ttl after (elim card [
              | none ↦ none
              | some c ↦
                  if is_stale ttl now e.published_at
                  then none
                  else some (record { card = c; last_seen = e.published_at })
            ]))
          ≡ (if outlasts ttl e.published_at (prunes now ∷ after) then card else none)
    shown none = elim (Bool-cases (outlasts ttl e.published_at (prunes now ∷ after))) [
      | inl b ↦ rw b refl
      | inr b ↦ rw b refl
    ]
    shown (some c) = elim (Bool-cases (is_fresh ttl e.published_at now)) [
      | inl fresh ↦
          rw (is_stale_lem, fresh)
            (elim (Bool-cases (outlasts ttl e.published_at after)) [
              | inl b ↦ rw b refl
              | inr b ↦ rw b refl
            ])
      | inr stale ↦ rw (is_stale_lem, stale) refl
    ]

-- However the two tasks of the directory take turns, from an empty directory: after an entry of an
-- agent is applied, and until the next entry of it, the card that the directory gives for the agent is
-- the entry's, where it has one, it is not a deletion, and neither the time of its application nor that
-- of a pruning since is past its publication by more than the age that is allowed, if there is one; and
-- else the directory gives none.
pub get-acts :
    (ttl : Option ℕ) (before after : List Act) (now : ℕ) (e : RegistryEntry)
    → All (IsOther e.agent_name) after
    → get e.agent_name (acts ttl (before ++ applies now e ∷ after) [])
      ≡ (if not e.deleted && outlasts ttl e.published_at (prunes now ∷ after) then e.card else none)
unfolding acts
get-acts ttl before after now e others =
    let d = acts ttl before [] in
    get_lem e.agent_name (acts ttl (before ++ applies now e ∷ after) [])
    ∙ ap (λ d. card_of (lookup e.agent_name d)) (acts-append ttl before (applies now e ∷ after) [])
    ∙ ap card_of (
        acts-others ttl e.agent_name after (apply_registry_entry ttl now e d) others
          (act-Distinct ttl (applies now e) d (acts-Distinct ttl before [] tt))
        ∙ ap (remains ttl after) (lookup-apply ttl now e e.agent_name d ∙ rw eq_refl refl))
    ∙ card_of-seen ttl now e after e.card refl
