-- ===== src/Live/Replay.antt =====
-- A capture that is sent again.
use warden_drydock.Prelude.{
  String, ◌≡◌, refl, ◌∙◌, sym, ap, ◌||◌, Option, none, some, ◌==◌, ltb, inl, inr, Bool-cases,
  nat_eq, string_eq, pair_eq, beq_self,
}
use mathlib.Core.Path.{subst}
use warden_drydock.Prelude.Dict.{lookup, insert, lookup-insert_self}
use warden_drydock.Prelude.Result.{Result, ok, err}
use warden_drydock.Live.Models.{LiveError, LiveSession, Binding, Sessions, change, save_session}
use warden_drydock.Live.Service.{
  Operation, Answer, accepted, exact_replay, capture_of, with_capture, capture_over,
  capture_session, capture_digest, on_session, written, capture,
}
use warden_drydock.Live.Consistent.{new_capture_checks}
use warden_drydock.Live.Steps.{err≢ok, none≢some, Kept, IsKept, capture_session-Kept}
use warden_drydock.Live.Reach.{Reach, Reach-IsKept}

abbrev with_sessions :
    Result LiveError (Answer × LiveSession)
    → Sessions
    → Result LiveError (Answer × LiveSession) × Sessions
with_sessions x q = (x, q)

refused :
    {e : LiveError} {t : LiveSession}
    → ◌≡◌ {A = Result LiveError (Answer × LiveSession)} (err e) (ok (accepted, t))
    → ⊥
refused h = cc

replayed_only :
    {s t : LiveSession}
    → ◌≡◌ {A = Result LiveError (Answer × LiveSession)} (ok (exact_replay, s)) (ok (accepted, t))
    → ⊥
replayed_only h = cc

same_session :
    {s t : LiveSession}
    → ◌≡◌ {A = Result LiveError (Answer × LiveSession)} (ok (accepted, s)) (ok (accepted, t))
    → s ≡ t
same_session h = cc

module _ (sha256 : String → String) (dumps : Binding → String) where
  over_again :
      (x : Option String) (id : String) (o : Operation) (s t : LiveSession)
      → capture_over sha256 dumps x id o s ≡ ok (some t)
      → capture_over sha256 dumps (lookup (o.device_id, o.operation_id) t.receipts) id o t ≡ ok none
  unfolding capture_over capture_of with_capture capture_digest
  over_again (some prior) id o s t e =
      elim (Bool-cases (prior == capture_digest sha256 dumps s id o)) [
        | inl same ↦ absurd (none≢some (rw same at e))
        | inr other ↦ absurd (err≢ok (rw other at e))
      ]
  over_again none id o s t e =
      subst
        (λ t.
          capture_over sha256 dumps (lookup (o.device_id, o.operation_id) t.receipts) id o t
          ≡ ok none)
        (new_capture_checks sha256 dumps id o s t e).2
        (rw
          (lookup-insert_self (o.device_id, o.operation_id) (capture_digest sha256 dumps s id o)
            s.receipts)
          (rw (beq_self (capture_digest sha256 dumps s id o)) refl))

  session_again :
      (id : String) (o : Operation) (s t : LiveSession)
      → capture_session sha256 dumps id o s ≡ ok (some t)
      → capture_session sha256 dumps id o t ≡ ok none
  unfolding capture_session
  session_again id o s t e = elim (Bool-cases (ltb o.device_order 1 || o.text == "")) [
    | inl bad ↦ absurd (err≢ok (rw bad at e))
    | inr good ↦ rw good (over_again _ id o s t (rw good at e))
  ]

  lookup-saved :
      (id : String) (t : LiveSession) (r : Sessions)
      → t.session_id ≡ id
      → lookup id (change t.session_id t (change id t r)).sessions ≡ some t
  unfolding change
  lookup-saved id t r named =
      ap (λ j. lookup j (insert t.session_id t (insert id t r.sessions))) (sym named)
      ∙ lookup-insert_self t.session_id t (insert id t r.sessions)

  written_again :
      (id : String) (o : Operation) (s t : LiveSession) (r : Sessions)
      (x : Result LiveError (Option LiveSession))
      → capture_session sha256 dumps id o s ≡ x
      → Kept id s
      → (written sha256 dumps id x o.expected_workflow_version o.controller_epoch s r).0
        ≡ ok (accepted, t)
      → capture sha256 dumps id o
          (written sha256 dumps id x o.expected_workflow_version o.controller_epoch s r).1
        ≡ (
          ok (exact_replay, t),
          (written sha256 dumps id x o.expected_workflow_version o.controller_epoch s r).1,
        )
  unfolding written capture save_session on_session
  written_again id o s t r (err e) same k h = absurd (refused h)
  written_again id o s t r (ok none) same k h = absurd (replayed_only h)
  written_again id o s t r (ok (some t')) same k h =
      let q : Sessions = change t'.session_id t' (change id t' r) in
      ap
        (λ y.
          on_session sha256 dumps y (capture_session sha256 dumps id o) id
            o.expected_workflow_version o.controller_epoch q)
        (lookup-saved id t' r (capture_session-Kept sha256 dumps id o s t' same k).named)
      ∙ ap (λ y. written sha256 dumps id y o.expected_workflow_version o.controller_epoch t' q)
          (session_again id o s t' same)
      ∙ ap (λ y. with_sessions (ok (exact_replay, y)) q) (same_session h)

  found_again :
      (id : String) (o : Operation) (t : LiveSession) (r : Sessions) (y : Option LiveSession)
      → lookup id r.sessions ≡ y
      → IsKept r
      → (on_session sha256 dumps y
          (capture_session sha256 dumps id o)
          id
          o.expected_workflow_version
          o.controller_epoch
          r).0
        ≡ ok (accepted, t)
      → capture sha256 dumps id o
          (on_session sha256 dumps y
            (capture_session sha256 dumps id o)
            id
            o.expected_workflow_version
            o.controller_epoch
            r).1
        ≡ (
          ok (exact_replay, t),
          (on_session sha256 dumps y
              (capture_session sha256 dumps id o)
              id
              o.expected_workflow_version
              o.controller_epoch
              r).1,
        )
  unfolding on_session
  found_again id o t r none found k h = absurd (refused h)
  found_again id o t r (some s) found k h = written_again id o s t r _ refl (k id s found) h

  -- Once a capture has been accepted, the same call again answers that it is an exact replay, with
  -- the session as the first call left it, and changes nothing.
  pub capture_again :
      (id : String) (o : Operation) (t : LiveSession) (r : Sessions)
      → Reach sha256 dumps r
      → (capture sha256 dumps id o r).0 ≡ ok (accepted, t)
      → capture sha256 dumps id o (capture sha256 dumps id o r).1
        ≡ (ok (exact_replay, t), (capture sha256 dumps id o r).1)
  unfolding capture
  capture_again id o t r reach h = found_again id o t r _ refl (Reach-IsKept sha256 dumps reach) h
