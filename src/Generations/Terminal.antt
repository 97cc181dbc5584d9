-- ===== src/Generations/Terminal.antt =====
-- The events of a dispatched generation.
use warden_drydock.Prelude.{
  ℕ, ◌+◌, String, ◌≡◌, refl, sym, Bool, true, false, Option, none, some, List, [], ◌∷◌, ◌++◌,
  length, All, All-append, inl, inr, Bool-cases, arith, string_eq, option_eq, ◌==◌,
}
use mathlib.Core.Path.{subst}
use warden_drydock.Prelude.Result.{Result, ok, err}
use warden_drydock.Generations.Models.{GenerationError, StreamEvent, GenerationRecord}
use warden_drydock.Generations.Dispatch.{
  exhausted, unavailable, broken, StreamEnd, Stream, Streamed, is_terminal, is_known, event_of,
  append, add_content, stopped, run, finalize, status_of, is_none, conclude, stream_into,
}

-- The events have consecutive sequence numbers from the one given.
abbrev pub IsNumbered : ℕ → List StreamEvent → Type 0
IsNumbered n [] = Unit
IsNumbered n (e ∷ es) = (e.sequence ≡ n) × IsNumbered (n + 1) es

append-IsNumbered :
    (n : ℕ) (es : List StreamEvent) (e : StreamEvent)
    → IsNumbered n es
    → e.sequence ≡ length es + n
    → IsNumbered n (es ++ e ∷ [])
append-IsNumbered n [] e h s = (omega (arith, s), tt)
append-IsNumbered n (d ∷ es) e h s = (h.0, append-IsNumbered (n + 1) es e h.1 (omega (arith, s)))

-- While it streams, a generation has numbered events, none of them terminal.
pub record IsOpen (g : GenerationRecord) : Type 0 where
  pub numbered : IsNumbered 1 g.events
  pub unfinished : All (λ (e : StreamEvent). is_terminal e.event_type ≡ false) g.events

append-IsOpen :
    (t : String) (f : Option String) (g : GenerationRecord)
    → is_terminal t ≡ false
    → IsOpen g
    → IsOpen (append t f g)
unfolding append event_of
append-IsOpen t f g open' h = record {
  numbered = append-IsNumbered 1 g.events (event_of g t f none) h.numbered (omega arith);
  unfinished =
      All-append (λ (e : StreamEvent). is_terminal e.event_type ≡ false) g.events
        (event_of g t f none ∷ []) h.unfinished (open', tt);
}

add_content-IsOpen :
    (t : String) (f : Option String) (g : GenerationRecord) → IsOpen g → IsOpen (add_content t f g)
unfolding add_content
add_content-IsOpen t none g h = h
add_content-IsOpen t (some fragment) g h = elim (Bool-cases (t == "delta")) [
  | inl same ↦ rw same (record { numbered = h.numbered; unfinished = h.unfinished })
  | inr other ↦ rw other h
]

-- A pending event is one of the two terminal ones.
abbrev pub IsPending : Option (String × Option String) → Type 0
IsPending none = Unit
IsPending (some terminal) = is_terminal terminal.0 ≡ true

-- What the loop leaves.
pub record IsStreamed (x : Streamed) : Type 0 where
  pub open' : IsOpen x.generation
  pub pending : IsPending x.pending_terminal

run-IsStreamed :
    (events : List (String × Option String)) (ends : StreamEnd)
    (p : Option (String × Option String)) (g : GenerationRecord)
    → IsPending p
    → IsOpen g
    → IsStreamed (run events ends p g)
unfolding run stopped
run-IsStreamed [] ends p g k h = record { open' = h; pending = k }
run-IsStreamed ((t, f) ∷ events) ends (some terminal) g k h = record { open' = h; pending = k }
run-IsStreamed ((t, f) ∷ events) ends none g k h = elim (Bool-cases (is_known t)) [
  | inr unknown ↦ rw unknown (record { open' = h; pending = tt })
  | inl known ↦ elim (Bool-cases (is_terminal t)) [
    | inl last ↦ rw (known, last) (run-IsStreamed events ends (some (t, f)) g last h)
    | inr more ↦
        rw (known, more)
          (run-IsStreamed events ends none _ tt
            (append-IsOpen t f (add_content t f g) more (add_content-IsOpen t f g h)))
  ]
]

-- The generation has ended: its events are numbered from 1, the last is terminal and no other is,
-- and the status says which of the two it was.
pub record IsTerminated (g : GenerationRecord) : Type 0 where
  pub earlier : List StreamEvent
  pub last : StreamEvent
  pub events : g.events ≡ earlier ++ last ∷ []
  pub numbered : IsNumbered 1 g.events
  pub unfinished : All (λ (e : StreamEvent). is_terminal e.event_type ≡ false) earlier
  pub terminal : is_terminal last.event_type ≡ true
  pub status : g.terminal_status ≡ some (status_of last.event_type)

finalize-IsTerminated :
    (t : String) (f : Option String) (retryable : Option Bool) (g : GenerationRecord)
    → is_terminal t ≡ true
    → IsOpen g
    → IsTerminated (finalize t f retryable (status_of t) g)
unfolding finalize event_of
finalize-IsTerminated t f retryable g last h = record {
  earlier = g.events;
  last = event_of g t f retryable;
  events = refl;
  numbered = append-IsNumbered 1 g.events (event_of g t f retryable) h.numbered (omega arith);
  unfinished = h.unfinished;
  terminal = last;
  status = refl;
}

-- A call that returns gives an ended generation, which is also the one that is kept; one that raises
-- keeps an open one.
abbrev pub Ended : Result GenerationError GenerationRecord × GenerationRecord → Type 0
Ended (ok g, kept) = (g ≡ kept) × IsTerminated kept
Ended (err _, kept) = IsOpen kept

failed_status : status_of "failure" ≡ "failed"
unfolding status_of
failed_status = refl

failure_terminal : is_terminal "failure" ≡ true
unfolding is_terminal
failure_terminal = refl

conclude-Ended :
    (ends : StreamEnd) (p : Option (String × Option String)) (g : GenerationRecord)
    → IsPending p
    → IsOpen g
    → Ended (conclude ends p g)
unfolding conclude
conclude-Ended broken p g k h = h
conclude-Ended unavailable p g k h = (
  refl,
  subst (λ s. IsTerminated (finalize "failure" none (some (is_none p)) s g)) failed_status
      (finalize-IsTerminated "failure" none _ g failure_terminal h),
)
conclude-Ended exhausted none g k h = (
  refl,
  subst (λ s. IsTerminated (finalize "failure" none (some true) s g)) failed_status
      (finalize-IsTerminated "failure" none _ g failure_terminal h),
)
conclude-Ended exhausted (some terminal) g k h =
    (refl, finalize-IsTerminated terminal.0 terminal.1 none g k h)

-- Whatever a provider streams into a generation without events, with unknown events, events after a
-- terminal one, or no terminal one at all: if the stream ends, or fails as unavailable, the
-- generation gets exactly one terminal event, as its last, its status says which, and its events are
-- numbered from 1 without a gap. If the stream fails in another way, the call raises, and the events
-- that are kept are numbered and none is terminal.
pub stream_into-Ended :
    (s : Stream) (g : GenerationRecord) → g.events ≡ [] → Ended (stream_into s g)
unfolding stream_into is_terminal
stream_into-Ended s g empty =
    let streamed : IsStreamed (run s.yielded s.ends none (append "start" none g)) =
      run-IsStreamed s.yielded s.ends none _ tt (
        append-IsOpen "start" none g refl (record {
          numbered = subst (IsNumbered 1) (sym empty) tt;
          unfinished =
              subst (All (λ (e : StreamEvent). is_terminal e.event_type ≡ false)) (sym empty) tt;
        })) in
    conclude-Ended _ _ _ streamed.pending streamed.open'
