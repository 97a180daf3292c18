-- ===== src/Agent/Replay.antt =====
-- Which records of a log a stream sends.
use kafka_a2a.Common.{◌≡◌, refl, Bool, true, false, List, [], ◌∷◌, ◌++◌, arith, not}
use kafka_a2a.Common.Lists.{keep, All}
use kafka_a2a.Models.{TaskEvent, task, status_update, artifact_update}
use kafka_a2a.TaskStore.State.{TaskEventRecord}
use kafka_a2a.Agent.Forward.{is_task, ends_stream, forwarded}

-- The record is sent, and the stream goes on after it.
abbrev pub goes_on : TaskEventRecord → Bool
goes_on r = not (ends_stream r.event)

abbrev pub sent : TaskEventRecord → Bool
sent r = not (is_task r.event)

ends-sent : (e : TaskEvent) → ends_stream e ≡ true → is_task e ≡ false
ends-sent (task id) h = cc
ends-sent (status_update e) h = refl
ends-sent (artifact_update e) h = refl

-- Up to its first final event a stream sends all but the tasks; it sends that event, and nothing
-- of what comes after.
pub forwarded-final :
    (before after : List TaskEventRecord) (r : TaskEventRecord)
    → All (λ x. goes_on x ≡ true) before
    → ends_stream r.event ≡ true
    → forwarded (before ++ r ∷ after) ≡ keep sent before ++ r ∷ []
unfolding forwarded keep
forwarded-final [] after r h final = rw (ends-sent r.event final, final) refl
forwarded-final (x ∷ xs) after r (hx, h) final = ground (arith, forwarded-final xs after r h final)

-- A log with no final event is sent whole, but for the tasks.
pub forwarded-open :
    (rs : List TaskEventRecord) → All (λ x. goes_on x ≡ true) rs → forwarded rs ≡ keep sent rs
unfolding forwarded keep
forwarded-open [] h = refl
forwarded-open (x ∷ xs) (hx, h) = ground (arith, forwarded-open xs h)
