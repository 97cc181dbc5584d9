-- ===== src/Live/Steps.antt =====
-- The calls on live sessions, in any order, and what holds of every session after all of them.
use warden_drydock.Prelude.{
  ℕ, String, ◌≡◌, refl, ◌∙◌, sym, false, not, ◌||◌, Option, none, some, ◌==◌, ltb, contains,
  All-map, inl, inr, Bool-cases, arith, nat_eq, string_eq, pair_eq,
}
use mathlib.Core.Path.{subst}
use mathlib.Core.Option.{some-injective}
use text.Mathlib.TextEquality.{eq_iff}
use warden_drydock.Prelude.Dict.{lookup, lookup-insert}
use warden_drydock.Prelude.Result.{Result, ok, err, bind-eq-ok, require, require-eq-ok}
use warden_drydock.Live.Models.{
  LiveError, stale_workflow, live_unaccepted_barrier, LiveSession, is_active, Binding, Sessions,
  change, save_session,
}
use warden_drydock.Live.Service.{
  Operation, Ending, capture_of, with_capture, capture_over, capture_session, ended, new_end,
  end_over, end_session, has_hidden, taken_over, capture_digest, end_digest, require_controller,
  require_epoch, on_session, written,
}
use warden_drydock.Live.Consistent.{
  IsConsistent, insert-HasReceipt, some-ok, with_capture-IsConsistent, new_capture_checks,
}

pub err≢ok :
    {e : LiveError} {o : Option LiveSession}
    → ◌≡◌ {A = Result LiveError (Option LiveSession)} (err e) (ok o)
    → ⊥
err≢ok h = cc

pub none≢some :
    {s : LiveSession} → ◌≡◌ {A = Result LiveError (Option LiveSession)} (ok none) (ok (some s)) → ⊥
none≢some h = cc

-- What a call on a session keeps: its name, and its consistency.
pub record Kept (id : String) (s : LiveSession) : Type 0 where
  pub named : s.session_id ≡ id
  pub consistent : IsConsistent s

-- Every stored session is kept.
abbrev pub IsKept : Sessions → Type 0
IsKept r = (id : String) (s : LiveSession) → lookup id r.sessions ≡ some s → Kept id s

pub change-IsKept :
    (id : String) (t : LiveSession) (r : Sessions) → Kept id t → IsKept r → IsKept (change id t r)
unfolding change
change-IsKept id t r k h j s e = elim (Bool-cases (id == j)) [
  | inl same ↦
      let j_is : id ≡ j = (eq_iff id j).0 same in
      let s_is : t ≡ s = some-injective _ _ (sym (lookup-insert id j t r.sessions ∙ rw same) ∙ e) in
      subst (λ s. Kept j s) s_is (subst (λ j. Kept j t) j_is k)
  | inr other ↦ h j s (sym (lookup-insert id j t r.sessions ∙ rw other) ∙ e)
]

module _ (sha256 : String → String) (dumps : Binding → String) where
  capture_over-Kept :
      (x : Option String) (id : String) (o : Operation) (s t : LiveSession)
      → lookup (o.device_id, o.operation_id) s.receipts ≡ x
      → capture_over sha256 dumps x id o s ≡ ok (some t)
      → Kept id s
      → Kept id t
  unfolding capture_over capture_of with_capture
  capture_over-Kept (some prior) id o s t free e k =
      elim (Bool-cases (prior == capture_digest sha256 dumps s id o)) [
        | inl same ↦ absurd (none≢some (rw same at e))
        | inr other ↦ absurd (err≢ok (rw other at e))
      ]
  capture_over-Kept none id o s t free e k =
      let (order, event, same) = new_capture_checks sha256 dumps id o s t e in
      subst (Kept id) same (record {
        named = k.named;
        consistent =
            with_capture-IsConsistent sha256 dumps (capture_of sha256 dumps id o s) s free order
              event k.consistent;
      })

  pub capture_session-Kept :
      (id : String) (o : Operation) (s t : LiveSession)
      → capture_session sha256 dumps id o s ≡ ok (some t)
      → Kept id s
      → Kept id t
  unfolding capture_session
  capture_session-Kept id o s t e k = elim (Bool-cases (ltb o.device_order 1 || o.text == "")) [
    | inl bad ↦ absurd (err≢ok (rw bad at e))
    | inr good ↦ capture_over-Kept _ id o s t refl (rw good at e) k
  ]

  ended-Kept :
      (now : ℕ) (id : String) (x : Ending) (s : LiveSession)
      → lookup (x.device_id, x.operation_id) s.receipts ≡ none
      → Kept id s
      → Kept id (ended sha256 dumps now id x s)
  unfolding ended
  ended-Kept now id x s free k = record {
    named = k.named;
    consistent = record {
      rising = k.consistent.rising;
      receipted =
          All-map (λ c r. insert-HasReceipt (x.device_id, x.operation_id) _ s.receipts c free r)
            s.captures k.consistent.receipted;
    };
  }

  -- What a new end has been checked for.
  pub new_end_checks :
      (now : ℕ) (id : String) (x : Ending) (s t : LiveSession)
      → new_end sha256 dumps now id x s ≡ ok (some t)
      → (has_hidden sha256 dumps x s ≡ false) × (ended sha256 dumps now id x s ≡ t)
  unfolding new_end
  new_end_checks now id x s t e =
      let (_, _, e1) =
        bind-eq-ok (require_controller s x.controller_id x.controller_epoch) _ (some t) e in
      let (_, _, e2) = bind-eq-ok (require (is_active s.mode) stale_workflow) _ (some t) e1 in
      let (_, _, e3) =
        bind-eq-ok (require (s.workflow_version == x.expected_workflow_version) stale_workflow) _
          (some t) e2 in
      let (_, seen, e4) =
        bind-eq-ok (require (not (has_hidden sha256 dumps x s)) live_unaccepted_barrier) _ (some t)
          e3 in
      (
        ground
            (arith, require-eq-ok (not (has_hidden sha256 dumps x s)) live_unaccepted_barrier seen),
        some-ok e4,
      )

  end_over-Kept :
      (y : Option String) (now : ℕ) (id : String) (x : Ending) (s t : LiveSession)
      → lookup (x.device_id, x.operation_id) s.receipts ≡ y
      → end_over sha256 dumps y now id x s ≡ ok (some t)
      → Kept id s
      → Kept id t
  unfolding end_over
  end_over-Kept (some prior) now id x s t free e k =
      elim (Bool-cases (prior == end_digest sha256 dumps s id x)) [
        | inl same ↦ absurd (none≢some (rw same at e))
        | inr other ↦ absurd (err≢ok (rw other at e))
      ]
  end_over-Kept none now id x s t free e k =
      subst (Kept id) (new_end_checks now id x s t e).1 (ended-Kept now id x s free k)

  pub end_session-Kept :
      (now : ℕ) (id : String) (x : Ending) (s t : LiveSession)
      → end_session sha256 dumps now id x s ≡ ok (some t)
      → Kept id s
      → Kept id t
  unfolding end_session
  end_session-Kept now id x s t e k =
      elim (Bool-cases (contains (x.device_id, x.operation_id) x.required_operation_ids)) [
        | inl bad ↦ absurd (err≢ok (rw bad at e))
        | inr good ↦ end_over-Kept _ now id x s t refl (rw good at e) k
      ]

  pub taken_over-Kept :
      (controller : String) (epoch version : ℕ) (id : String) (s t : LiveSession)
      → taken_over controller epoch version s ≡ ok (some t)
      → Kept id s
      → Kept id t
  unfolding taken_over
  taken_over-Kept controller epoch version id s t e k =
      let (_, _, e1) = bind-eq-ok (require_epoch s epoch) _ (some t) e in
      let (_, _, e2) = bind-eq-ok (require (is_active s.mode) stale_workflow) _ (some t) e1 in
      let (_, _, e3) =
        bind-eq-ok (require (s.workflow_version == version) stale_workflow) _ (some t) e2 in
      subst (Kept id) (some-ok e3) (record {
        named = k.named;
        consistent = record { rising = k.consistent.rising; receipted = k.consistent.receipted };
      })

  written-IsKept :
      (id : String) (x : Result LiveError (Option LiveSession)) (version epoch : ℕ)
      (s : LiveSession) (r : Sessions)
      → ((t : LiveSession) → x ≡ ok (some t) → Kept id t)
      → IsKept r
      → IsKept (written sha256 dumps id x version epoch s r).1
  unfolding written save_session
  written-IsKept id (err e) version epoch s r k h = h
  written-IsKept id (ok none) version epoch s r k h = h
  written-IsKept id (ok (some t)) version epoch s r k h =
      change-IsKept t.session_id t (change id t r)
        (record { named = refl; consistent = (k t refl).consistent })
        (change-IsKept id t r (k t refl) h)

  pub on_session-IsKept :
      (o : Option LiveSession) (f : LiveSession → Result LiveError (Option LiveSession))
      (id : String) (version epoch : ℕ) (r : Sessions)
      → ((s t : LiveSession) → f s ≡ ok (some t) → Kept id s → Kept id t)
      → lookup id r.sessions ≡ o
      → IsKept r
      → IsKept (on_session sha256 dumps o f id version epoch r).1
  unfolding on_session
  on_session-IsKept none f id version epoch r k found h = h
  on_session-IsKept (some s) f id version epoch r k found h =
      written-IsKept id (f s) version epoch s r (λ t e. k s t e (h id s found)) h
