-- ===== src/Proposals/Service.antt =====
-- hosted/proposals/service.py: `ProposalService` over the in-memory repository. The callbacks work
-- outside the repository; each is a function to what it returns or raises, and `publish` stands for
-- the call with or without `finalize`.
mod Writes
mod Approval
pub mod Calls
pub mod Published
use warden_drydock.Prelude.{
  ℕ, String, Bool, true, false, not, Option, none, some, List, ◌&&◌, ◌||◌, ◌==◌, nat_eq, string_eq,
  option_eq, pair_eq, if◌then◌else◌,
}
use warden_drydock.Prelude.Dict.{lookup}
use warden_drydock.Prelude.Result.{Result, ok, err}
use warden_drydock.Revisions.Models.{SnapshotManifest, manifest_beq}
use warden_drydock.Proposals.Models.{
  ProposalError, value_error, key_error, stale_head, ProposalStatus, draft, rejected, approved,
  approving, conflict, published, quarantined, status_beq, ExactTextChange, ProposalVersion,
  check_version, are_bad_changes,
}
use warden_drydock.Proposals.Digests.{ChangeDigest, publication_digest}
use warden_drydock.Proposals.Repository
use warden_drydock.Proposals.Repository.{
  Repository, key_of, next_version, get, add, replace_status, claim, finalize,
}

pub record Provenance : Type 0 where
  pub generation_id : Option String
  pub source_revision : Option String
  pub source_set_digest : Option String
  pub terminal_draft_digest : Option String

-- `Status` of a staged change.
pub data StageStatus : Type 0 where
  staged invalid failed : StageStatus

-- What `publish` returns: nothing, a manifest, or another value.
pub data Publication : Type 0 where
  nothing other_value : Publication
  snapshot : SnapshotManifest → Publication

-- The constructor's arguments.
pub record Callbacks : Type 0 where
  pub head : String → Result ProposalError (Option String)
  pub stage : ProposalVersion → Result ProposalError StageStatus
  pub publish : ProposalVersion → Result ProposalError Publication
  pub verify_publication : Option (SnapshotManifest → Result ProposalError SnapshotManifest)
  pub diff_digest : List ExactTextChange → String
  pub payload_digest : List ExactTextChange → String

-- A method that returns nothing where the status does not allow the call.
unfoldable pub or_refused :
    Result ProposalError (Option ProposalVersion) × Repository
    → Result ProposalError ProposalVersion × Repository
or_refused (ok (some v), r) = (ok v, r)
or_refused (ok none, r) = (err value_error, r)
or_refused (err e, r) = (err e, r)

pub data Ending : Type 0 where
  sets : ProposalStatus → Ending
  finalizes : ProposalStatus → Option SnapshotManifest → Ending

unfoldable pub conclude :
    ProposalVersion → Ending → Repository → Result ProposalError ProposalVersion × Repository
conclude v (sets status) r = replace_status v status r
conclude v (finalizes status result) r = finalize v status result r

module _ (sha256 : String → String) (dumps : List ChangeDigest → String) (c : Callbacks) where
  -- The bindings that `_bind_manifest` compares.
  unfoldable pub is_bound : ProposalVersion → SnapshotManifest → Bool
  is_bound v m =
      m.campaign_id == v.campaign_id
      && m.parent_revision == some v.base_revision
      && m.change_digest == publication_digest sha256 dumps v

  drafted :
      Result ProposalError ProposalVersion
      → Repository
      → Result ProposalError ProposalVersion × Repository
  drafted (err e) r = (err e, r)
  drafted (ok item) r = (ok item, add item r)

  unfoldable pub draft_item :
      String → String → String → List ExactTextChange → Provenance → ℕ → ProposalVersion
  draft_item proposal campaign base changes p version = record {
    proposal_id = proposal;
    version = version;
    campaign_id = campaign;
    base_revision = base;
    changes = changes;
    diff_digest = c.diff_digest changes;
    payload_digest = c.payload_digest changes;
    status = draft;
    generation_id = p.generation_id;
    source_revision = p.source_revision;
    source_set_digest = p.source_set_digest;
    terminal_draft_digest = p.terminal_draft_digest;
    published_revision_id = none;
    editor_metadata = none;
  }

  unfoldable pub draft_proposal :
      String
      → String
      → String
      → List ExactTextChange
      → Provenance
      → Repository
      → Result ProposalError ProposalVersion × Repository
  unfolding drafted draft_item
  draft_proposal proposal campaign base changes p r =
      if are_bad_changes changes
      then (err value_error, r)
      else drafted
          (check_version (draft_item proposal campaign base changes p (next_version proposal r))) r

  unfoldable pub correct :
      ProposalVersion
      → List ExactTextChange
      → Option String
      → Repository
      → Result ProposalError ProposalVersion × Repository
  correct version changes base r =
      or_refused (Repository.correct c.diff_digest c.payload_digest version changes base r)

  unfoldable pub reject :
      ProposalVersion → Repository → Result ProposalError ProposalVersion × Repository
  reject version r = or_refused (Repository.reject version r)

  -- How `approve` ends for a version that it has claimed: by `replace_status`, or by `finalize`.
  after_publish : ProposalVersion → Result ProposalError Publication → Ending
  unfolding is_bound
  after_publish v (err stale_head) = sets conflict
  after_publish v (err _) = sets quarantined
  after_publish v (ok nothing) = finalizes approved none
  after_publish v (ok other_value) = sets quarantined
  after_publish v (ok (snapshot m)) =
      if is_bound v m then finalizes published (some m) else sets quarantined

  after_stage : ProposalVersion → Result ProposalError StageStatus → Ending
  unfolding after_publish
  after_stage v (ok staged) = after_publish v (c.publish v)
  after_stage v (ok _) = sets draft
  after_stage v (err _) = sets draft

  after_head : ProposalVersion → Result ProposalError (Option String) → Ending
  unfolding after_stage
  after_head v (err _) = sets draft
  after_head v (ok head) =
      if head == some v.base_revision then after_stage v (c.stage v) else sets conflict

  unfoldable pub ending : ProposalVersion → Ending
  unfolding after_head
  ending v = after_head v (c.head v.campaign_id)

  claimed :
      Result ProposalError (Option ProposalVersion) × Repository
      → Result ProposalError ProposalVersion × Repository
  unfolding conclude ending
  claimed (err e, r) = (err e, r)
  claimed (ok none, r) = (err value_error, r)
  claimed (ok (some v), r) = conclude v (ending v) r

  pub approve_current :
      String
      → String
      → String
      → Result ProposalError ProposalVersion
      → Repository
      → Result ProposalError ProposalVersion × Repository
  unfolding claimed
  approve_current diff base payload (err e) r = (err e, r)
  approve_current diff base payload (ok current) r =
      if not (
        diff == current.diff_digest
        && base == current.base_revision
        && payload == current.payload_digest)
      then (err value_error, r)
      else if status_beq current.status published
      then (ok current, r)
      else claimed (claim current r)

  unfoldable pub approve :
      ProposalVersion
      → String
      → String
      → String
      → Repository
      → Result ProposalError ProposalVersion × Repository
  unfolding approve_current get
  approve version diff base payload r = approve_current diff base payload (get (key_of version) r) r

  verified :
      ProposalVersion
      → SnapshotManifest
      → Result ProposalError SnapshotManifest
      → Repository
      → Result ProposalError ProposalVersion × Repository
  verified current m (err e) r = (err e, r)
  verified current m (ok n) r =
      if manifest_beq n m then finalize current published (some m) r else (err value_error, r)

  -- The part of `reconcile` after the test of the status.
  reconcile_with :
      ProposalVersion
      → Publication
      → Option (SnapshotManifest → Result ProposalError SnapshotManifest)
      → Repository
      → Result ProposalError ProposalVersion × Repository
  unfolding verified is_bound
  reconcile_with current (snapshot m) (some verify) r =
      if is_bound current m then verified current m (verify m) r else (err value_error, r)
  reconcile_with current _ _ r = (err value_error, r)

  reconcile_current :
      Publication
      → Result ProposalError ProposalVersion
      → Repository
      → Result ProposalError ProposalVersion × Repository
  unfolding reconcile_with
  reconcile_current result (err e) r = (err e, r)
  reconcile_current result (ok current) r =
      if status_beq current.status published
      then (ok current, r)
      else if status_beq current.status approving
          || status_beq current.status approved
          || status_beq current.status quarantined
      then reconcile_with current result c.verify_publication r
      else (err value_error, r)

  unfoldable pub reconcile :
      ProposalVersion → Publication → Repository → Result ProposalError ProposalVersion × Repository
  unfolding reconcile_current get
  reconcile version result r = reconcile_current result (get (key_of version) r) r
