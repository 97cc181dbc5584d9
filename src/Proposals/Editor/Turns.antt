-- ===== src/Proposals/Editor/Turns.antt =====
-- The editor's turns: who adds a proposal advances the workflow version, and nobody else can.
use warden_drydock.Prelude.{
  ℕ, ◌+◌, String, ◌≡◌, ◌≢◌, refl, Bool, true, false, Option, none, some, inl, inr, Bool-cases,
  arith, nat_eq, string_eq, option_eq, pair_eq, ◌==◌, nat_beq_iff,
}
use warden_drydock.Prelude.Dict.{lookup, lookup-insert_self}
use warden_drydock.Prelude.Result.{Result, ok, err}
use warden_drydock.Proposals.Models.{
  ProposalError, draft, EditorMetadata, Correction, absent, malformed, corrects, ProposalVersion,
}
use warden_drydock.Proposals.Repository.{Repository, key_of, next_version, put, stamp}
use warden_drydock.Proposals.Editor.{
  editor_workflow_version, advance, add_item, can_correct, retired, add_over, add_correction,
  add_with, add_editor,
}

-- How `add_editor` ends: the proposal was added at its turn, or nothing has changed.
abbrev pub Turn :
    ProposalVersion → String → ℕ → Repository → Result ProposalError Bool × Repository → Type 0
Turn item campaign expected r (ok true, q) =
    (editor_workflow_version campaign r ≡ expected)
    × (editor_workflow_version campaign q ≡ expected + 1)
    × (next_version item.proposal_id r ≡ item.version)
    × (lookup (key_of item) q.items ≡ some (record item { status = draft }))
Turn item campaign expected r (ok false, q) = q ≡ r
Turn item campaign expected r (err e, q) = q ≡ r

workflow-add_item :
    (item : ProposalVersion) (campaign : String) (expected : ℕ) (r : Repository)
    → editor_workflow_version campaign (add_item item campaign expected r) ≡ expected + 1
unfolding editor_workflow_version add_item advance put stamp
workflow-add_item item campaign expected r =
    rw (lookup-insert_self campaign (expected + 1) r.editor_workflow) refl

lookup-add_item :
    (item : ProposalVersion) (campaign : String) (expected : ℕ) (r : Repository)
    → lookup (key_of item) (add_item item campaign expected r).items
      ≡ some (record item { status = draft })
unfolding add_item advance put stamp
lookup-add_item item campaign expected r = lookup-insert_self (key_of item) _ r.items

module _ (sha256 : String → String) (dumps : EditorMetadata → String) where
  add_over-Turn :
      (o : Option ProposalVersion) (item : ProposalVersion) (campaign : String) (expected : ℕ)
      (r : Repository)
      → editor_workflow_version campaign r ≡ expected
      → next_version item.proposal_id r ≡ item.version
      → Turn item campaign expected r (add_over sha256 dumps o item campaign expected r)
  unfolding add_over
  add_over-Turn none item campaign expected r turn new = refl
  add_over-Turn (some prior) item campaign expected r turn new =
      elim (Bool-cases (can_correct prior item)) [
        | inl fits ↦ rw fits (
          turn,
          workflow-add_item item campaign expected
              (put (key_of prior) (retired sha256 dumps prior) r),
          new,
          lookup-add_item item campaign expected
              (put (key_of prior) (retired sha256 dumps prior) r),
        )
        | inr other ↦ rw other refl
      ]

  add_correction-Turn :
      (x : Correction) (item : ProposalVersion) (campaign : String) (expected : ℕ) (r : Repository)
      → editor_workflow_version campaign r ≡ expected
      → next_version item.proposal_id r ≡ item.version
      → Turn item campaign expected r (add_correction sha256 dumps x item campaign expected r)
  unfolding add_correction
  add_correction-Turn absent item campaign expected r turn new = (
    turn,
    workflow-add_item item campaign expected r,
    new,
    lookup-add_item item campaign expected r,
  )
  add_correction-Turn malformed item campaign expected r turn new = refl
  add_correction-Turn (corrects id version) item campaign expected r turn new =
      add_over-Turn _ item campaign expected r turn new

  add_with-Turn :
      (o : Option EditorMetadata) (item : ProposalVersion) (campaign : String) (expected : ℕ)
      (r : Repository)
      → Turn item campaign expected r (add_with sha256 dumps o item campaign expected r)
  unfolding add_with
  add_with-Turn none item campaign expected r = refl
  add_with-Turn (some m) item campaign expected r =
      elim (Bool-cases (m.editor_workflow_version == some (expected + 1))) [
        | inr other ↦ rw other refl
        | inl named ↦ elim (Bool-cases (editor_workflow_version campaign r == expected)) [
          | inr late ↦ rw (named, late) refl
          | inl turn ↦ elim (Bool-cases (next_version item.proposal_id r == item.version)) [
            | inr clash ↦ rw (named, turn, clash) refl
            | inl new ↦
                rw (named, turn, new)
                  (add_correction-Turn m.correction_of item campaign expected r
                    ((nat_beq_iff (editor_workflow_version campaign r) expected).0 turn)
                    ((nat_beq_iff (next_version item.proposal_id r) item.version).0 new))
          ]
        ]
      ]

  -- An editor's proposal is added only if the campaign's workflow version is the one that the editor
  -- expected and the proposal's version is its next; it is then stored as a draft, and the workflow
  -- version is one more than before. Otherwise, whether refused or raised, nothing has changed.
  pub add_editor-Turn :
      (item : ProposalVersion) (campaign : String) (expected : ℕ) (r : Repository)
      → Turn item campaign expected r (add_editor sha256 dumps item campaign expected r)
  unfolding add_editor
  add_editor-Turn item campaign expected r = elim (Bool-cases (campaign == item.campaign_id)) [
    | inl own ↦ rw own (add_with-Turn item.editor_metadata item campaign expected r)
    | inr foreign ↦ rw foreign refl
  ]

  accepted_at :
      (item : ProposalVersion) (campaign : String) (expected : ℕ) (r : Repository)
      (x : Result ProposalError Bool × Repository)
      → Turn item campaign expected r x
      → x.0 ≡ ok true
      → (editor_workflow_version campaign r ≡ expected)
        × (editor_workflow_version campaign x.1 ≡ expected + 1)
  accepted_at item campaign expected r (ok true, q) t e = (t.0, t.1)
  accepted_at item campaign expected r (ok false, q) t e = absurd (cc)
  accepted_at item campaign expected r (err x, q) t e = absurd (cc)

  -- Of two editors who expect the same workflow version of a campaign, the second is refused once the
  -- first has added a proposal, whatever the two proposals are.
  pub add_editor_twice :
      (first second : ProposalVersion) (campaign : String) (expected : ℕ) (r : Repository)
      → (add_editor sha256 dumps first campaign expected r).0 ≡ ok true
      → (add_editor sha256 dumps second campaign expected
          (add_editor sha256 dumps first campaign expected r).1).0
        ≢ ok true
  add_editor_twice first second campaign expected r e e' =
      let (_, after) =
        accepted_at first campaign expected r _ (add_editor-Turn first campaign expected r) e in
      let (again, _) =
        accepted_at second campaign expected _ _ (add_editor-Turn second campaign expected _) e' in
      omega (arith, after, again)
