-- ===== src/Proposals/Models.antt =====
-- hosted/proposals/service.py: the version of a proposal with what its constructor checks, and the
-- digests; hosted/engine/models.py: the exact text changes. The metadata of the editor is JSON in
-- the source; here it has the keys that the code reads or writes, and `rest` for the others.
use warden_drydock.Prelude.{
  ℕ, String, Bool, true, false, ◌≡◌, inl, inr, Bool-cases, not, Option, none, some, List, [], ◌∷◌,
  ◌&&◌, ◌||◌, ◌==◌, leb, map, all, contains, string_eq, option_eq, list_eq, if◌then◌else◌,
}
use warden_drydock.Prelude.Result.{Result, ok, err}
use warden_drydock.Identifiers.{is_public_id, is_domain_id, is_digest}

-- The exceptions, by class.
pub data ProposalError : Type 0 where
  value_error key_error stale_head other_error : ProposalError

pub data ProposalStatus : Type 0 where
  draft rejected approved approving conflict published quarantined : ProposalStatus

unfoldable pub status_beq : ProposalStatus → ProposalStatus → Bool
status_beq draft draft = true
status_beq rejected rejected = true
status_beq approved approved = true
status_beq approving approving = true
status_beq conflict conflict = true
status_beq published published = true
status_beq quarantined quarantined = true
status_beq _ _ = false

pub data ChangeKind : Type 0 where
  create update delete : ChangeKind

pub record ExactTextChange : Type 0 where
  pub change_id : String
  pub subject_id : String
  pub expected_content_digest : Option String
  pub replacement : String
  pub change_kind : ChangeKind
  pub record_type : Option String

-- `correction_of`: not there, a value of another form, or a proposal with its version.
pub data Correction : Type 0 where
  absent malformed : Correction
  corrects : String → ℕ → Correction

pub record EditorMetadata : Type 0 where
  pub contract_name : Option String
  pub editor_workflow_version : Option ℕ
  pub correction_of : Correction
  pub core_status : String
  pub approval_binding : Option String
  pub publication_status : String
  pub published_revision : Option String
  pub proposal_payload_digest : Option String
  pub rest : String

pub record ProposalVersion : Type 0 where
  pub proposal_id : String
  pub version : ℕ
  pub campaign_id : String
  pub base_revision : String
  pub changes : List ExactTextChange
  pub diff_digest : String
  pub payload_digest : String
  pub status : ProposalStatus
  pub generation_id : Option String
  pub source_revision : Option String
  pub source_set_digest : Option String
  pub terminal_draft_digest : Option String
  pub published_revision_id : Option String
  pub editor_metadata : Option EditorMetadata

-- `value is None or matches(value)`
none_or : (String → Bool) → Option String → Bool
none_or test none = true
none_or test (some value) = test value

is_some : Option String → Bool
is_some none = false
is_some (some _) = true

is_valid_change : ExactTextChange → Bool
unfolding is_public_id is_domain_id none_or is_digest
is_valid_change c =
    is_public_id c.change_id
    && is_domain_id c.subject_id
    && none_or is_domain_id c.record_type
    && none_or is_digest c.expected_content_digest

-- Provenance is complete and of the base revision, or there is none of it.
is_valid_provenance : ProposalVersion → Bool
unfolding is_some none_or is_public_id is_digest
is_valid_provenance v =
    if is_some v.generation_id
      || is_some v.source_revision
      || is_some v.source_set_digest
      || is_some v.terminal_draft_digest
    then is_some v.generation_id
      && is_some v.source_revision
      && is_some v.source_set_digest
      && is_some v.terminal_draft_digest
      && none_or is_public_id v.generation_id
      && none_or is_public_id v.source_revision
      && v.source_revision == some v.base_revision
      && none_or is_digest v.source_set_digest
      && none_or is_digest v.terminal_draft_digest
    else true

is_empty : List ExactTextChange → Bool
is_empty [] = true
is_empty (_ ∷ _) = false

-- The conditions of `ProposalVersion.__post_init__`, each of which raises the same exception.
is_valid_version : ProposalVersion → Bool
unfolding is_public_id is_empty is_valid_change is_digest is_valid_provenance none_or
is_valid_version v =
    is_public_id v.proposal_id
    && is_public_id v.campaign_id
    && is_public_id v.base_revision
    && leb 1 v.version
    && not (is_empty v.changes)
    && all is_valid_change v.changes
    && is_digest v.diff_digest
    && is_digest v.payload_digest
    && is_valid_provenance v
    && none_or is_public_id v.published_revision_id

unfoldable pub check_version : ProposalVersion → Result ProposalError ProposalVersion
unfolding is_valid_version
check_version v = if is_valid_version v then ok v else err value_error

-- The constructor gives the version that it was called with.
pub check_version-same : (v w : ProposalVersion) → check_version v ≡ ok w → w ≡ v
unfolding check_version
check_version-same v w e = elim (Bool-cases (is_valid_version v)) [
  | inl valid ↦ ok_same (rw valid at e)
  | inr bad ↦ absurd (differs (rw bad at e))
]
  where
    ok_same : ◌≡◌ {A = Result ProposalError ProposalVersion} (ok v) (ok w) → w ≡ v
    ok_same h = cc

    differs : ◌≡◌ {A = Result ProposalError ProposalVersion} (err value_error) (ok w) → ⊥
    differs h = cc

all_distinct : List String → Bool
all_distinct [] = true
all_distinct (x ∷ xs) = not (contains x xs) && all_distinct xs

-- `not changes or len({c.change_id for c in changes}) != len(changes)`
unfoldable pub are_bad_changes : List ExactTextChange → Bool
unfolding is_empty all_distinct
are_bad_changes changes =
    is_empty changes || not (all_distinct (map (λ (c : ExactTextChange). c.change_id) changes))
