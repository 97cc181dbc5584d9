-- ===== src/Live/Reach.antt =====
-- Sequences of calls on live sessions, and what holds of every session after all of them.
use warden_drydock.Prelude.{
  ℕ, String, ◌≡◌, refl, Bool, true, false, Option, none, some, ◌==◌, inl, inr, Bool-cases, nat_eq,
  string_eq, pair_eq,
}
use warden_drydock.Prelude.Dict.{lookup}
use warden_drydock.Live.Models.{
  LiveSession, Binding, Sessions, no_sessions, change, create_session, active_session,
}
use warden_drydock.Live.Service.{
  Operation, Ending, capture_session, end_session, taken_over, new_session, start, start_at,
  created, observe, observed, capture, end, takeover,
}
use warden_drydock.Live.Consistent.{IsConsistent}
use warden_drydock.Live.Steps.{
  IsKept, change-IsKept, capture_session-Kept, end_session-Kept, taken_over-Kept, on_session-IsKept,
}

created-IsKept :
    (o : Option LiveSession) (now : ℕ) (id campaign head controller : String) (r : Sessions)
    → IsKept r
    → IsKept (created o now (new_session id campaign head controller) r).1
unfolding created create_session new_session change
created-IsKept (some s) now id campaign head controller r h = h
created-IsKept none now id campaign head controller r h =
    change-IsKept id _ r
      (record { named = refl; consistent = record { rising = tt; receipted = tt } }) h

start-IsKept :
    (enabled : Bool) (now : ℕ) (id campaign head controller : String) (o : Option LiveSession)
    (r : Sessions)
    → IsKept r
    → IsKept (start_at o now id campaign head controller r).1
unfolding start_at
start-IsKept enabled now id campaign head controller (some s) r h = h
start-IsKept enabled now id campaign head controller none r h =
    created-IsKept (active_session campaign r) now id campaign head controller r h

observed-IsKept :
    (o : Option LiveSession) (id : String) (head : Option String) (r : Sessions)
    → lookup id r.sessions ≡ o
    → IsKept r
    → IsKept (observed o id head r).1
unfolding observed
observed-IsKept none id head r found h = h
observed-IsKept (some s) id none r found h = h
observed-IsKept (some s) id (some head) r found h = elim (Bool-cases (head == "")) [
  | inl empty ↦ rw empty h
  | inr given ↦
      let k = h id s found in
      rw given (
        change-IsKept id (record s { reported_head_revision = head }) r
          (record {
            named = k.named;
            consistent = record {
              rising = k.consistent.rising;
              receipted = k.consistent.receipted;
            };
          })
          h)
]

module _ (sha256 : String → String) (dumps : Binding → String) where
  -- A call of the service, with the sessions before and after it.
  pub data Step : Sessions → Sessions → Type 0 where
    starts :
        {r : Sessions} (enabled : Bool) (now : ℕ) (id campaign head controller : String)
        → Step r (start enabled now id campaign head controller r).1
    observes : {r : Sessions} (id : String) (head : Option String) → Step r (observe id head r).1
    takes_over :
        {r : Sessions} (id controller : String) (epoch version : ℕ)
        → Step r (takeover sha256 dumps id controller epoch version r).1
    capturing :
        {r : Sessions} (id : String) (o : Operation) → Step r (capture sha256 dumps id o r).1
    ending :
        {r : Sessions} (now : ℕ) (id : String) (x : Ending) → Step r (end sha256 dumps now id x r).1

  -- What calls in any order can make of no sessions.
  pub data Reach : Sessions → Type 0 where
    here : Reach no_sessions
    next : {q r : Sessions} → Reach q → Step q r → Reach r

  Step-IsKept : {r q : Sessions} → Step r q → IsKept r → IsKept q
  unfolding start observe takeover capture end
  Step-IsKept {r = r} (starts true now id campaign head controller) h =
      start-IsKept true now id campaign head controller _ r h
  Step-IsKept {r = r} (starts false now id campaign head controller) h = h
  Step-IsKept {r = r} (observes id head) h = observed-IsKept _ id head r refl h
  Step-IsKept {r = r} (takes_over id controller epoch version) h =
      on_session-IsKept sha256 dumps _ (taken_over controller epoch version) id version epoch r
        (taken_over-Kept sha256 dumps controller epoch version id) refl h
  Step-IsKept {r = r} (capturing id o) h =
      on_session-IsKept sha256 dumps _ (capture_session sha256 dumps id o) id _ _ r
        (capture_session-Kept sha256 dumps id o) refl h
  Step-IsKept {r = r} (ending now id x) h =
      on_session-IsKept sha256 dumps _ (end_session sha256 dumps now id x) id _ _ r
        (end_session-Kept sha256 dumps now id x) refl h

  pub Reach-IsKept : {r : Sessions} → Reach r → IsKept r
  unfolding lookup
  Reach-IsKept here = λ id s e. absurd (cc)
  Reach-IsKept (next before step) = Step-IsKept step (Reach-IsKept before)

  -- After any starts, observations, takeovers, captures and ends, successful or not and in any order,
  -- the captures of every session have different events, those of one device have strictly rising
  -- orders in the order of their arrival, and each capture's digest is the receipt of its operation.
  pub Reach-IsConsistent :
      (r : Sessions) (id : String) (s : LiveSession)
      → Reach r
      → lookup id r.sessions ≡ some s
      → IsConsistent s
  Reach-IsConsistent r id s reach found = (Reach-IsKept reach id s found).consistent
