-- ===== src/Live/Consistent.antt =====
-- What every session keeps: the order of its captures, and a receipt for each.
use warden_drydock.Prelude.{
  ℕ, ◌<◌, String, ◌≡◌, ◌≢◌, refl, ◌∙◌, sym, ap, false, not, Option, none, some, List, [], ◌∷◌, ◌++◌,
  ◌==◌, any, All, All-append, All-map, inl, inr, Bool-cases, arith, nat_eq, string_eq, pair_eq,
  if◌then◌else◌, pair_beq_iff,
}
use mathlib.Core.Bool.{false≢true}
use text.Mathlib.TextEquality.{eq_iff}
use warden_drydock.Prelude.Dict.{Dict, lookup, insert, lookup-insert, lookup-insert_self}
use warden_drydock.Prelude.Result.{Result, ok, bind-eq-ok, require, require-eq-ok}
use warden_drydock.Live.Models.{
  LiveError, stale_workflow, unsafe_binding, idempotency_digest_conflict, OperationKey, Capture,
  LiveSession, is_active, Binding,
}
use warden_drydock.Live.Service.{
  Operation, max_order, is_reused, at_most, greater, require_controller, capture_of, with_capture,
  new_capture,
}

above_both :
    (order n : ℕ) (o : Option ℕ)
    → at_most order (some (greater n o)) ≡ false
    → (at_most order o ≡ false) × (n < order)
unfolding at_most greater
above_both order n none h = (refl, ground arith)
above_both order n (some m) h = ground arith

not_reused_head :
    (device : String) (order : ℕ) (d : Capture) (ds : List Capture)
    → is_reused device order (d ∷ ds) ≡ false
    → (is_reused device order ds ≡ false) × (d.device_id ≡ device → d.device_order < order)
unfolding is_reused max_order
not_reused_head device order d ds h = elim (Bool-cases (d.device_id == device)) [
  | inr other ↦
      let h' : at_most order (max_order device ds) ≡ false = rw other at opened in
      (h', λ own. absurd (false≢true (sym other ∙ (eq_iff d.device_id device).1 own)))
  | inl own ↦
      let h' : at_most order (some (greater d.device_order (max_order device ds))) ≡ false =
        rw own at opened in
      let (below, own_below) = above_both order d.device_order (max_order device ds) h' in
      (below, λ o. own_below)
]
  where
    opened :
        at_most order (
          if d.device_id == device
          then some (greater d.device_order (max_order device ds))
          else max_order device ds)
        ≡ false
    opened = h

is_reused-All :
    (device : String) (order : ℕ) (cs : List Capture)
    → is_reused device order cs ≡ false
    → All (λ (c : Capture). c.device_id ≡ device → c.device_order < order) cs
is_reused-All device order [] h = tt
is_reused-All device order (c ∷ cs) h =
    let (others, own) = not_reused_head device order c cs h in
    (own, is_reused-All device order cs others)

any-All :
    (id : String) (cs : List Capture)
    → any (λ (c : Capture). c.event_id == id) cs ≡ false
    → All (λ (c : Capture). c.event_id ≢ id) cs
any-All id [] h = tt
any-All id (c ∷ cs) h = elim (Bool-cases (c.event_id == id)) [
  | inl same ↦ absurd (ground (arith, h, same))
  | inr other ↦
      (λ e. false≢true (sym other ∙ (eq_iff c.event_id id).1 e), any-All id cs (rw other at h))
]

-- A capture and a later one: another event, and a greater order if it is of the same device.
abbrev pub Before : Capture → Capture → Type 0
Before c d =
    (c.event_id ≢ d.event_id) × (c.device_id ≡ d.device_id → c.device_order < d.device_order)

-- Every capture is before all that follow it.
abbrev pub IsRising : List Capture → Type 0
IsRising [] = Unit
IsRising (c ∷ cs) = All (Before c) cs × IsRising cs

append-IsRising :
    (cs : List Capture) (d : Capture)
    → IsRising cs
    → All (λ (c : Capture). Before c d) cs
    → IsRising (cs ++ d ∷ [])
append-IsRising [] d h b = (tt, tt)
append-IsRising (c ∷ cs) d h b =
    (All-append (Before c) cs (d ∷ []) h.0 (b.0, tt), append-IsRising cs d h.1 b.1)

All-both :
    (P Q : Capture → Type 0) (cs : List Capture) → All P cs → All Q cs → All (λ c. P c × Q c) cs
All-both P Q [] p q = tt
All-both P Q (c ∷ cs) p q = ((p.0, q.0), All-both P Q cs p.1 q.1)

-- The receipt of the capture's operation is its digest.
abbrev pub HasReceipt : Dict OperationKey String → Capture → Type 0
HasReceipt receipts c = lookup (c.device_id, c.operation_id) receipts ≡ some c.payload_digest

-- The captures rise, and each has its receipt.
pub record IsConsistent (s : LiveSession) : Type 0 where
  pub rising : IsRising s.captures
  pub receipted : All (HasReceipt s.receipts) s.captures

-- A receipt under a new key takes nobody's place.
pub insert-HasReceipt :
    (k : OperationKey) (digest : String) (receipts : Dict OperationKey String) (c : Capture)
    → lookup k receipts ≡ none
    → HasReceipt receipts c
    → HasReceipt (insert k digest receipts) c
insert-HasReceipt k digest receipts c free h =
    elim (Bool-cases (k == (c.device_id, c.operation_id))) [
      | inl same ↦ absurd (
          taken (
            sym free
            ∙ ap (λ j. lookup j receipts) ((pair_beq_iff k (c.device_id, c.operation_id)).0 same)
            ∙ h))
      | inr other ↦ lookup-insert k (c.device_id, c.operation_id) digest receipts ∙ rw other h
    ]
  where
    taken : ◌≡◌ {A = Option String} none (some c.payload_digest) → ⊥
    taken e = cc

pub some-ok :
    {a b : LiveSession}
    → ◌≡◌ {A = Result LiveError (Option LiveSession)} (ok (some a)) (ok (some b))
    → a ≡ b
some-ok e = cc

module _ (sha256 : String → String) (dumps : Binding → String) where
  pub with_capture-IsConsistent :
      (x : Capture) (s : LiveSession)
      → lookup (x.device_id, x.operation_id) s.receipts ≡ none
      → is_reused x.device_id x.device_order s.captures ≡ false
      → any (λ (c : Capture). c.event_id == x.event_id) s.captures ≡ false
      → IsConsistent s
      → IsConsistent (with_capture sha256 dumps x s)
  unfolding with_capture
  with_capture-IsConsistent x s free order event h = record {
    rising = append-IsRising s.captures x h.rising (
        All-both _ _ s.captures (any-All x.event_id s.captures event)
          (is_reused-All x.device_id x.device_order s.captures order));
    receipted =
        All-append (HasReceipt _) s.captures (x ∷ [])
          (All-map
            (λ c r.
              insert-HasReceipt (x.device_id, x.operation_id) x.payload_digest s.receipts c free r)
            s.captures h.receipted)
          (lookup-insert_self (x.device_id, x.operation_id) x.payload_digest s.receipts, tt);
  }

  -- What a new capture has been checked for.
  pub new_capture_checks :
      (id : String) (o : Operation) (s t : LiveSession)
      → new_capture sha256 dumps id o s ≡ ok (some t)
      → (is_reused o.device_id o.device_order s.captures ≡ false)
        × (any (λ (c : Capture). c.event_id == o.event_id) s.captures ≡ false)
        × (with_capture sha256 dumps (capture_of sha256 dumps id o s) s ≡ t)
  unfolding new_capture
  new_capture_checks id o s t e =
      let (_, _, e1) =
        bind-eq-ok (require_controller s o.controller_id o.controller_epoch) _ (some t) e in
      let (_, _, e2) = bind-eq-ok (require (is_active s.mode) stale_workflow) _ (some t) e1 in
      let (_, _, e3) =
        bind-eq-ok (require (s.workflow_version == o.expected_workflow_version) stale_workflow) _
          (some t) e2 in
      let (_, fresh, e4) =
        bind-eq-ok (require (not (is_reused o.device_id o.device_order s.captures)) unsafe_binding)
          _ (some t) e3 in
      let (_, other, e5) =
        bind-eq-ok
          (require (not (any (λ (c : Capture). c.event_id == o.event_id) s.captures))
            idempotency_digest_conflict)
          _ (some t) e4 in
      (
        ground (
          arith,
          require-eq-ok (not (is_reused o.device_id o.device_order s.captures)) unsafe_binding
              fresh,
        ),
        ground (
          arith,
          require-eq-ok (not (any (λ (c : Capture). c.event_id == o.event_id) s.captures))
              idempotency_digest_conflict other,
        ),
        some-ok e5,
      )
