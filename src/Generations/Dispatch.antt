-- ===== src/Generations/Dispatch.antt =====
-- hosted/ai/service.py: `dispatch` and `resume` of `GroundedAIService`. What the provider streams is
-- the list of the events that it yields, with how the iteration ends. The record that is dispatched
-- is stored again after each event, so it is the record that the repository has.
use Prim.Native.String.{◌++◌ as append_text}
use warden_drydock.Prelude.{
  ℕ, ◌+◌, String, Bool, true, false, not, Option, none, some, List, [], ◌∷◌, ◌++◌, ◌||◌, ◌==◌, ltb,
  length, contains, filter, string_eq, option_eq, if◌then◌else◌,
}
use warden_drydock.Prelude.Dict.{lookup}
use warden_drydock.Prelude.Result.{Result, ok, err}
use warden_drydock.Generations.Models.{
  GenerationError, unsafe_binding, provider_error, StreamEvent, GenerationRecord, Repository,
  request_beq, save_generation,
}

-- How the iteration of the stream ends: normally, with `ProviderUnavailable`, or another exception.
pub data StreamEnd : Type 0 where
  exhausted unavailable broken : StreamEnd

pub record Stream : Type 0 where
  pub yielded : List (String × Option String)
  pub ends : StreamEnd

-- The state of the loop, once it has ended.
pub record Streamed : Type 0 where
  pub generation : GenerationRecord
  pub pending_terminal : Option (String × Option String)
  pub ends : StreamEnd

unfoldable pub is_terminal : String → Bool
is_terminal event_type = event_type == "completion" || event_type == "failure"

unfoldable pub is_known : String → Bool
is_known event_type = contains event_type ("delta" ∷ "usage" ∷ "completion" ∷ "failure" ∷ [])

unfoldable pub event_of : GenerationRecord → String → Option String → Option Bool → StreamEvent
event_of g event_type fragment retryable = record {
  sequence = length g.events + 1;
  event_type = event_type;
  draft_fragment = fragment;
  retryable = retryable;
}

-- `_append`, without the saving
unfoldable pub append : String → Option String → GenerationRecord → GenerationRecord
unfolding event_of
append event_type fragment g = record g {
  events = g.events ++ event_of g event_type fragment none ∷ [];
}

-- `record.terminal_content += fragment`
unfoldable pub add_content : String → Option String → GenerationRecord → GenerationRecord
add_content event_type none g = g
add_content event_type (some fragment) g =
    if event_type == "delta"
    then record g { terminal_content = append_text g.terminal_content fragment }
    else g

unfoldable pub stopped : GenerationRecord → Option (String × Option String) → Streamed
stopped g pending = record { generation = g; pending_terminal = pending; ends = unavailable }

-- The loop: after a terminal event every event is refused.
unfoldable pub run :
    List (String × Option String)
    → StreamEnd
    → Option (String × Option String)
    → GenerationRecord
    → Streamed
unfolding stopped append add_content is_terminal is_known
run [] ends pending g = record { generation = g; pending_terminal = pending; ends = ends }
run ((t, f) ∷ events) ends (some terminal) g = stopped g (some terminal)
run ((t, f) ∷ events) ends none g =
    let last = run events ends (some (t, f)) g in
    let others = run events ends none (append t f (add_content t f g)) in
    if not (is_known t) then stopped g none else if is_terminal t then last else others

-- `_finalize`
unfoldable pub finalize :
    String → Option String → Option Bool → String → GenerationRecord → GenerationRecord
unfolding event_of
finalize event_type fragment retryable status g = record g {
  events = g.events ++ event_of g event_type fragment retryable ∷ [];
  terminal_status = some status;
}

unfoldable pub status_of : String → String
status_of event_type = if event_type == "completion" then "complete" else "failed"

unfoldable pub is_none : Option (String × Option String) → Bool
is_none none = true
is_none (some _) = false

-- What follows the loop; an exception of another class leaves the generation open.
unfoldable pub conclude :
    StreamEnd
    → Option (String × Option String)
    → GenerationRecord
    → Result GenerationError GenerationRecord × GenerationRecord
unfolding finalize status_of is_none
conclude broken pending g = (err provider_error, g)
conclude unavailable pending g =
    let closed = finalize "failure" none (some (is_none pending)) "failed" g in (ok closed, closed)
conclude exhausted none g =
    let closed = finalize "failure" none (some true) "failed" g in (ok closed, closed)
conclude exhausted (some terminal) g =
    let closed = finalize terminal.0 terminal.1 none (status_of terminal.0) g in (ok closed, closed)

unfoldable pub stream_into :
    Stream → GenerationRecord → Result GenerationError GenerationRecord × GenerationRecord
unfolding run conclude append
stream_into s g =
    let x = run s.yielded s.ends none (append "start" none g) in
    conclude x.ends x.pending_terminal x.generation

is_open : GenerationRecord → Bool
is_open g = elim g.events [
  | _ ∷ _ ↦ false
  | [] ↦ elim g.terminal_status [ none ↦ true | some _ ↦ false ]
]

saved :
    Result GenerationError GenerationRecord × GenerationRecord
    → Repository
    → Result GenerationError GenerationRecord × Repository
unfolding save_generation
saved (answer, g) r = (answer, save_generation g r)

dispatch_over :
    Option GenerationRecord
    → Stream
    → GenerationRecord
    → Repository
    → Result GenerationError GenerationRecord × Repository
unfolding request_beq is_open stream_into saved
dispatch_over none s g r = (err unsafe_binding, r)
dispatch_over (some stored) s g r =
    if not (request_beq stored.request g.request)
    then (err unsafe_binding, r)
    else if not (is_open stored)
    then (ok stored, r)
    else saved (stream_into s g)
        (record r { dispatch_log = r.dispatch_log ++ g.request.generation_id ∷ [] })

unfoldable pub dispatch :
    Stream → GenerationRecord → Repository → Result GenerationError GenerationRecord × Repository
unfolding dispatch_over
dispatch s g r = dispatch_over (lookup g.request.generation_id r.generations) s g r

unfoldable pub resume : GenerationRecord → ℕ → List StreamEvent
resume g after = filter (λ (e : StreamEvent). ltb after e.sequence) g.events
