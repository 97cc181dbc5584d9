-- ===== src/Proposals/Service/Calls.antt =====
-- Every call of the service writes what the state machine allows, and nothing else.
use warden_drydock.Prelude.{
  String, ◌≡◌, refl, sym, true, ◌||◌, Option, none, some, List, inl, inr, Bool-cases, arith, nat_eq,
  string_eq, option_eq, pair_eq,
}
use mathlib.Core.Path.{subst}
use warden_drydock.Prelude.Dict.{lookup}
use warden_drydock.Prelude.Result.{Result, ok, err}
use warden_drydock.Revisions.Models.{SnapshotManifest, manifest_beq}
use warden_drydock.Proposals.Models.{
  ProposalError, ProposalStatus, draft, approved, approving, published, quarantined, status_beq,
  ExactTextChange, ProposalVersion, check_version-same, are_bad_changes,
}
use warden_drydock.Proposals.Digests.{ChangeDigest}
use warden_drydock.Proposals.Repository
use warden_drydock.Proposals.Repository.{
  Key, Repository, key_of, next_version, get, get_of, add, put, stamp, replace_status,
  replace_status_of, claim, claim_of, reject_of, finalize, finalize_of, replace_by, correct_of,
  corrected_version, rebinds,
}
use warden_drydock.Proposals.Machine.{
  allowed, Edits, kept, stamps, creates, Edits-trans, IsKeyed, Edits-IsKeyed, lookup-next_version,
}
use warden_drydock.Proposals.Service.{
  Publication, nothing, other_value, snapshot, Callbacks, Provenance, is_bound, draft_item,
  draft_proposal, correct, reject, approve, reconcile, reconcile_current, reconcile_with, verified,
  drafted,
}
use warden_drydock.Proposals.Service.Writes.{
  finalize-Edits, or_refused-kept, reject-Edits, correct-Edits,
}
use warden_drydock.Proposals.Service.Approval.{approve-Edits}

publishes_allowed :
    (s : ProposalStatus)
    → (status_beq s approving || status_beq s approved || status_beq s quarantined) ≡ true
    → allowed s published ≡ true
unfolding status_beq
publishes_allowed s h = ground arith

module _ (sha256 : String → String) (dumps : List ChangeDigest → String) (c : Callbacks) where
  verified-Edits :
      (v : ProposalVersion) (m : SnapshotManifest) (x : Result ProposalError SnapshotManifest)
      (r : Repository)
      → lookup (key_of v) r.items ≡ some v
      → allowed v.status published ≡ true
      → Edits r (verified sha256 dumps c v m x r).1
  unfolding verified finalize
  verified-Edits v m (err e) r found a = kept
  verified-Edits v m (ok n) r found a = elim (Bool-cases (manifest_beq n m)) [
    | inl same ↦
        rw (same, found) (finalize-Edits (key_of v) v published (some m.revision_id) r found a)
    | inr other ↦ rw other kept
  ]

  reconcile_with-Edits :
      (v : ProposalVersion) (result : Publication)
      (check : Option (SnapshotManifest → Result ProposalError SnapshotManifest)) (r : Repository)
      → lookup (key_of v) r.items ≡ some v
      → allowed v.status published ≡ true
      → Edits r (reconcile_with sha256 dumps c v result check r).1
  unfolding reconcile_with
  reconcile_with-Edits v (snapshot m) (some check) r found a =
      elim (Bool-cases (is_bound sha256 dumps c v m)) [
        | inl bound ↦ rw bound (verified-Edits v m (check m) r found a)
        | inr other ↦ rw other kept
      ]
  reconcile_with-Edits v (snapshot m) none r found a = kept
  reconcile_with-Edits v nothing check r found a = kept
  reconcile_with-Edits v other_value check r found a = kept

  reconcile-Edits :
      (result : Publication) (k : Key) (o : Option ProposalVersion) (r : Repository)
      → IsKeyed r
      → lookup k r.items ≡ o
      → Edits r (reconcile_current sha256 dumps c result (get_of o) r).1
  unfolding reconcile_current get_of
  reconcile-Edits result k none r h found = kept
  reconcile-Edits result k (some v) r h found = elim (Bool-cases (status_beq v.status published)) [
    | inl done ↦ rw done kept
    | inr unfinished ↦
        elim (Bool-cases (
          status_beq v.status approving
          || status_beq v.status approved
          || status_beq v.status quarantined)) [
            | inl open' ↦
                rw (unfinished, open')
                  (reconcile_with-Edits v result c.verify_publication r (rw (h k v found) found)
                    (publishes_allowed v.status open'))
            | inr closed ↦ rw (unfinished, closed) kept
          ]
  ]

  drafted-Edits :
      (v : ProposalVersion) (x : Result ProposalError ProposalVersion) (r : Repository)
      → ((w : ProposalVersion) → x ≡ ok w → w ≡ v)
      → lookup (key_of v) r.items ≡ none
      → v.status ≡ draft
      → Edits r (drafted sha256 dumps c x r).1
  unfolding drafted add stamp
  drafted-Edits v (err e) r same fresh d = kept
  drafted-Edits v (ok w) r same fresh d =
      subst (λ w. Edits r (add w r)) (sym (same w refl))
        (creates v (stamps (key_of v) kept) fresh d)

  draft_proposal-Edits :
      (proposal campaign base : String) (changes : List ExactTextChange) (p : Provenance)
      (r : Repository)
      → IsKeyed r
      → Edits r (draft_proposal sha256 dumps c proposal campaign base changes p r).1
  unfolding draft_proposal draft_item
  draft_proposal-Edits proposal campaign base changes p r h =
      elim (Bool-cases (are_bad_changes changes)) [
        | inl bad ↦ rw bad kept
        | inr good ↦ rw good (
            drafted-Edits new _ r (λ w e. check_version-same new w e)
              (lookup-next_version proposal r h) refl)
      ]
    where
      new : ProposalVersion
      new = draft_item sha256 dumps c proposal campaign base changes p (next_version proposal r)

  -- A call of the service, with the repository before and after it.
  pub data Call : Repository → Repository → Type 0 where
    drafts :
        {r : Repository} (proposal campaign base : String) (changes : List ExactTextChange)
        (p : Provenance)
        → Call r (draft_proposal sha256 dumps c proposal campaign base changes p r).1
    corrects :
        {r : Repository} (version : ProposalVersion) (changes : List ExactTextChange)
        (base : Option String)
        → Call r (correct sha256 dumps c version changes base r).1
    rejects :
        {r : Repository} (version : ProposalVersion) → Call r (reject sha256 dumps c version r).1
    approves :
        {r : Repository} (version : ProposalVersion) (diff base payload : String)
        → Call r (approve sha256 dumps c version diff base payload r).1
    reconciles :
        {r : Repository} (version : ProposalVersion) (result : Publication)
        → Call r (reconcile sha256 dumps c version result r).1

  pub Call-Edits : {r q : Repository} → Call r q → IsKeyed r → Edits r q
  unfolding correct reject approve reconcile get Repository.correct Repository.reject
  Call-Edits {r = r} (drafts proposal campaign base changes p) h =
      draft_proposal-Edits proposal campaign base changes p r h
  Call-Edits {r = r} (corrects version changes base) h =
      rw
        (or_refused-kept (Repository.correct c.diff_digest c.payload_digest version changes base r))
        (correct-Edits c.diff_digest c.payload_digest version changes base _ r h refl)
  Call-Edits {r = r} (rejects version) h =
      rw (or_refused-kept (Repository.reject version r)) (reject-Edits (key_of version) _ r refl)
  Call-Edits {r = r} (approves version diff base payload) h =
      approve-Edits sha256 dumps c diff base payload (key_of version) _ r h refl
  Call-Edits {r = r} (reconciles version result) h =
      reconcile-Edits result (key_of version) _ r h refl

  -- Calls in any order, of one service after another.
  pub data Calls (r : Repository) : Repository → Type 0 where
    none_yet : Calls r r
    next : {p q : Repository} → Calls r p → Call p q → Calls r q

  -- Whatever drafts, corrections, rejections, approvals and reconciliations are called for, in any
  -- order, with any callbacks and whether each returns or raises, all that they write to a repository
  -- whose versions stand under their own keys are new drafts under keys that had no version, and
  -- transitions of the state machine `allowed`, which keep all of a version but its status and the
  -- revision that it is published as.
  pub Calls-Edits : (r q : Repository) → Calls r q → IsKeyed r → Edits r q
  Calls-Edits r q none_yet h = kept
  Calls-Edits r q (next before call) h =
      let earlier = Calls-Edits r _ before h in
      Edits-trans earlier (Call-Edits call (Edits-IsKeyed earlier h))
