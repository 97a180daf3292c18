-- ===== src/Agent/Forward.antt =====
-- `_begin_stream` and `_iter_local_stream` of src/kafka_a2a/runtime/agent.py: what of the records that
-- `iter_events` yields goes out, and where the stream ends.
use kafka_a2a.Common.{Bool, true, false, List, [], ◌∷◌, if◌then◌else◌}
use kafka_a2a.Models.{TaskEvent, task, status_update}
use kafka_a2a.TaskStore.State.{TaskEventRecord}

-- `isinstance(event, Task)`
abbrev pub is_task : TaskEvent → Bool
is_task (task id) = true
is_task _ = false

-- a status update that is final, which ends the stream
abbrev pub ends_stream : TaskEvent → Bool
ends_stream (status_update e) = e.final
ends_stream _ = false

-- `include_task` is false at each call of `_begin_stream`, and the local stream skips tasks as well.
unfoldable pub forwarded : List TaskEventRecord → List TaskEventRecord
forwarded [] = []
forwarded (r ∷ rs) =
    let rest = forwarded rs in
    if is_task r.event then rest else if ends_stream r.event then r ∷ [] else r ∷ rest
