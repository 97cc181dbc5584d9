-- ===== src/Live/Barrier.antt =====
-- The barrier that the end of a session leaves.
use warden_drydock.Prelude.{
  ℕ, String, ◌≡◌, refl, sym, ap, true, false, not, Option, none, some, List, [], ◌∷◌, ◌==◌,
  contains, All, inl, inr, Bool-cases, arith, nat_eq, string_eq, pair_eq, Mem, &&-true,
  pair_beq_iff,
}
use warden_drydock.Prelude.Result.{ok}
use warden_drydock.Live.Models.{LiveSession, Binding}
use warden_drydock.Live.Service.{Ending, ended, end_over, end_session, has_hidden, end_digest}
use warden_drydock.Prelude.{◌↔◌, all, any}
use warden_drydock.Prelude.Dict.{keys}
use warden_drydock.Live.Models.{OperationKey}
use warden_drydock.Live.Service.{barrier_of}
use warden_drydock.Live.Steps.{err≢ok, none≢some, new_end_checks}

contains-Mem : (k : OperationKey) (ks : List OperationKey) → contains k ks ≡ true → Mem k ks
contains-Mem k [] h = absurd (cc)
contains-Mem k (j ∷ ks) h = elim (Bool-cases (k == j)) [
  | inl same ↦ inl ((pair_beq_iff k j).0 same)
  | inr other ↦ inr (contains-Mem k ks (rw other at h))
]

Mem-contains : (k : OperationKey) (ks : List OperationKey) → Mem k ks → contains k ks ≡ true
Mem-contains k [] m = absurd m
Mem-contains k (j ∷ ks) (inl same) = rw ((pair_beq_iff k j).1 same) refl
Mem-contains k (j ∷ ks) (inr m) = ground (arith, Mem-contains k ks m)

-- Every member of the one list is a member of the other.
abbrev pub Within : List OperationKey → List OperationKey → Type 0
Within ks ls = All (λ k. Mem k ls) ks

all-Within :
    (ks ls : List OperationKey) → all (λ (k : OperationKey). contains k ls) ks ≡ true → Within ks ls
all-Within [] ls h = tt
all-Within (k ∷ ks) ls h =
    let (first, others) =
      &&-true (contains k ls) (all (λ (k : OperationKey). contains k ls) ks) h in
    (contains-Mem k ls first, all-Within ks ls others)

Within-all :
    (ks ls : List OperationKey) → Within ks ls → all (λ (k : OperationKey). contains k ls) ks ≡ true
Within-all [] ls w = refl
Within-all (k ∷ ks) ls w = rw (Mem-contains k ls w.0) (Within-all ks ls w.1)

any-Within :
    (ks ls : List OperationKey)
    → any (λ (k : OperationKey). not (contains k ls)) ks ≡ false
    → Within ks ls
any-Within [] ls h = tt
any-Within (k ∷ ks) ls h = elim (Bool-cases (contains k ls)) [
  | inl inside ↦ (contains-Mem k ls inside, any-Within ks ls (rw inside at h))
  | inr outside ↦ absurd (true≢false (rw outside at h))
]
  where
    true≢false : true ≡ false → ⊥
    true≢false e = cc

module _ (sha256 : String → String) (dumps : Binding → String) where
  end_over-checks :
      (y : Option String) (now : ℕ) (id : String) (x : Ending) (s t : LiveSession)
      → end_over sha256 dumps y now id x s ≡ ok (some t)
      → (has_hidden sha256 dumps x s ≡ false) × (ended sha256 dumps now id x s ≡ t)
  unfolding end_over
  end_over-checks (some prior) now id x s t e =
      elim (Bool-cases (prior == end_digest sha256 dumps s id x)) [
        | inl same ↦ absurd (none≢some (rw same at e))
        | inr other ↦ absurd (err≢ok (rw other at e))
      ]
  end_over-checks none now id x s t e = new_end_checks sha256 dumps now id x s t e

  -- When an end is accepted, and is no replay, the session's captures are what they were; every
  -- operation that has a receipt is among the required ones; the end's own operation is not; the
  -- barrier is stored; and the barrier is ready for a proposal exactly if every required operation
  -- had a receipt.
  pub end_session-sealed :
      (now : ℕ) (id : String) (x : Ending) (s t : LiveSession)
      → end_session sha256 dumps now id x s ≡ ok (some t)
      → (t.captures ≡ s.captures)
        × (t.end_barrier ≡ some (barrier_of sha256 dumps x s))
        × Within (keys s.receipts) x.required_operation_ids
        × (contains (x.device_id, x.operation_id) x.required_operation_ids ≡ false)
        × (((barrier_of sha256 dumps x s).ready_for_proposal ≡ true)
            ↔ Within x.required_operation_ids (keys s.receipts))
  unfolding end_session barrier_of has_hidden ended
  end_session-sealed now id x s t e =
      elim (Bool-cases (contains (x.device_id, x.operation_id) x.required_operation_ids)) [
        | inl bad ↦ absurd (err≢ok (rw bad at e))
        | inr apart ↦
            let (seen, same) = end_over-checks _ now id x s t (rw apart at e) in
            (
              sym (ap (λ (u : LiveSession). u.captures) same),
              sym (ap (λ (u : LiveSession). u.end_barrier) same),
              any-Within (keys s.receipts) x.required_operation_ids seen,
              apart,
              (
                all-Within x.required_operation_ids (keys s.receipts),
                Within-all x.required_operation_ids (keys s.receipts),
              ),
            )
      ]
