-- ===== src/SharedRuntime/State.antt =====
-- `SharedRuntimeService`: what it keeps, `_load_registry` and `_reconcile`. An agent that runs is told
-- by the payload it was started from. Starts that `asyncio.gather` runs together have names of their
-- own, so they are taken one after the other here; each ends before the next reconcile.
use kafka_a2a.Common.{
  String, Bool, true, false, Option, none, some, List, [], ◌∷◌, ◌++◌, ◌==◌, if◌then◌else◌, Result,
  ok, raise,
}
use kafka_a2a.Common.Dict.{Dict, lookup, insert, remove, contains}
use kafka_a2a.Common.Text.{strip}
use kafka_a2a.Common.Value.{
  Value, Fields, Items, arr, obj, cons, nil, get_field, is_truthy, text_of,
}

pub record ManagedAgent : Type 0 where
  pub fingerprint : String
  pub payload : Fields

pub data RuntimeEvent : Type 0 where
  started : String → RuntimeEvent
  stopped : String → RuntimeEvent

pub data ControlPlaneError : Type 0 where
  control_plane_error : String → ControlPlaneError

pub record ServiceState : Type 0 where
  pub managed : Dict ManagedAgent
  pub last_registry_agents : List Fields
  pub events : List RuntimeEvent

-- `[item for item in agents if isinstance(item, dict)]`
unfoldable pub dicts_of : Items → List Fields
dicts_of nil = []
dicts_of (cons (obj fs) items) = fs ∷ dicts_of items
dicts_of (cons _ items) = dicts_of items

-- the agents of a payload; those of a payload without a list are none
abbrev pub agents_of : Option Value → List Fields
agents_of (some (arr items)) = dicts_of items
agents_of _ = []

abbrev pub or_last :
    ControlPlaneError
    → List Fields
    → ServiceState
    → Result ControlPlaneError (List Fields) × ServiceState
or_last e [] s = (raise e, s)
or_last e (a ∷ last) s = (ok (a ∷ last), s)

-- `_load_registry`: where the control plane fails, the last registry that had agents serves again
unfoldable pub load_registry :
    Result ControlPlaneError Fields
    → ServiceState
    → Result ControlPlaneError (List Fields) × ServiceState
unfolding dicts_of get_field
load_registry (raise e) s = or_last e s.last_registry_agents s
load_registry (ok payload) s =
    let agents = agents_of (get_field "agents" payload) in
    (ok agents, record s { last_registry_agents = agents })

unfoldable pub names_of : Dict ManagedAgent → List String
names_of [] = []
names_of ((name, m) ∷ rest) = name ∷ names_of rest

abbrev pub is_current : Option ManagedAgent → String → Bool
is_current none fingerprint = false
is_current (some m) fingerprint = m.fingerprint == fingerprint

module _ (stops : String → ManagedAgent → Bool) where
  -- `_stop_agent`, where `stops` says whether the agent's own `stop` comes to its end; the name is no
  -- longer managed either way
  unfoldable pub stop_agent : String → ServiceState → Bool × ServiceState
  stop_agent name s = elim (lookup name s.managed) [
    | none ↦ (true, s)
    | some m ↦ (
      stops name m,
      record s {
        managed = remove name s.managed;
        events = if stops name m then s.events ++ stopped name ∷ [] else s.events;
      },
    )
  ]

  -- a stop that is called unless the agent is to stay
  unfoldable pub stop_unless : Bool → String → ServiceState → Bool × ServiceState
  unfolding stop_agent
  stop_unless stays name s = if stays then (true, s) else stop_agent name s

  -- the loop that stops what is not desired, with the name whose stop raised, which ends it
  unfoldable pub stop_missing :
      Dict (String × Fields) → List String → ServiceState → Option String × ServiceState
  unfolding stop_unless
  stop_missing desired [] s = (none, s)
  stop_missing desired (name ∷ names) s =
      let (ended, s') = stop_unless (contains name desired) name s in
      let rest = stop_missing desired names s' in if ended then rest else (some name, s')

  -- the loop that collects what is to start, and stops what has changed; `_stop_agent` does nothing
  -- to a name that is not managed
  unfoldable pub collect :
      Dict (String × Fields) → ServiceState → Option String × Dict (String × Fields) × ServiceState
  unfolding stop_unless
  collect [] s = (none, [], s)
  collect ((name, wanted) ∷ rest) s =
      let current = is_current (lookup name s.managed) wanted.0 in
      let (ended, s') = stop_unless current name s in
      let (failed, to_start, s'') = collect rest s' in
      if ended
      then (failed, (if current then to_start else (name, wanted) ∷ to_start), s'')
      else (some name, [], s')

-- How a reconcile ends: it raises if a stop or a start did, or without a registry.
pub data Reconciled : Type 0 where
  reconciled : Reconciled
  stop_failed : String → Reconciled
  start_failed : String → Reconciled
  no_registry : ControlPlaneError → Reconciled

module _ (repr : Value → String) (fingerprint_of : Fields → String)
    (starts : String → Fields → Bool) (stops : String → ManagedAgent → Bool) where
  -- `str(agent_payload.get("runtime_name") or "").strip()`
  unfoldable pub runtime_name : Fields → String
  unfolding get_field strip text_of
  runtime_name payload = elim (get_field "runtime_name" payload) [
    | none ↦ ""
    | some v ↦ if is_truthy v then strip (text_of repr v) else ""
  ]

  unfoldable pub desire : List Fields → Dict (String × Fields) → Dict (String × Fields)
  unfolding runtime_name
  desire [] desired = desired
  desire (payload ∷ agents) desired = desire agents (
      if runtime_name payload == ""
      then desired
      else insert (runtime_name payload) (fingerprint_of payload, payload) desired)

  -- `_start_agent`, where `starts` says whether it comes to its end
  unfoldable pub start_agent : String → String × Fields → ServiceState → ServiceState
  start_agent name wanted s =
      if starts name wanted.1
      then record s {
        managed = insert name (record { fingerprint = wanted.0; payload = wanted.1 }) s.managed;
        events = s.events ++ started name ∷ [];
      }
      else s

  unfoldable pub start_all : Dict (String × Fields) → ServiceState → ServiceState
  unfolding start_agent
  start_all [] s = s
  start_all ((name, wanted) ∷ rest) s = start_all rest (start_agent name wanted s)

  -- the first start that raises
  unfoldable pub outcome : Dict (String × Fields) → Reconciled
  outcome [] = reconciled
  outcome ((name, wanted) ∷ rest) =
      let later = outcome rest in if starts name wanted.1 then later else start_failed name

  -- what is left of a reconcile after its stops, unless one of them raised
  unfoldable pub start_collected :
      Option String × Dict (String × Fields) × ServiceState → Reconciled × ServiceState
  unfolding start_all outcome
  start_collected (some name, to_start, s) = (stop_failed name, s)
  start_collected (none, to_start, s) = (outcome to_start, start_all to_start s)

  unfoldable pub collect_remaining :
      Dict (String × Fields) → Option String × ServiceState → Reconciled × ServiceState
  unfolding collect start_collected
  collect_remaining desired (some name, s) = (stop_failed name, s)
  collect_remaining desired (none, s) = start_collected (collect stops desired s)

  unfoldable pub reconcile_with : Dict (String × Fields) → ServiceState → Reconciled × ServiceState
  unfolding stop_missing names_of collect_remaining
  reconcile_with desired s =
      collect_remaining desired (stop_missing stops desired (names_of s.managed) s)

  abbrev pub reconcile_loaded :
      Result ControlPlaneError (List Fields) × ServiceState → Reconciled × ServiceState
  reconcile_loaded (raise e, s) = (no_registry e, s)
  reconcile_loaded (ok agents, s) = reconcile_with (desire agents []) s

  -- `_reconcile`, from the answer of the control plane
  unfoldable pub reconcile :
      Result ControlPlaneError Fields → ServiceState → Reconciled × ServiceState
  unfolding load_registry desire reconcile_with
  reconcile answer s = reconcile_loaded (load_registry answer s)
