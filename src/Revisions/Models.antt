-- ===== src/Revisions/Models.antt =====
-- hosted/revisions/models.py: the dataclasses, with what their constructors check.
use warden_drydock.Prelude.{
  ℕ, String, ◌≡◌, ◌↔◌, Bool, true, false, Option, List, ◌&&◌, ◌==◌, Eq, nat_eq, string_eq,
  option_eq, pair_eq, list_eq, option_beq_iff, list_beq_iff, arith,
}
use text.Mathlib.TextEquality.{eq_iff}

-- The exceptions that the revision code raises, by class.
pub data RevisionError : Type 0 where
  snapshot_integrity snapshot_lineage stale_head publication_intent : RevisionError
  value_error key_error file_not_found index_error callback_error : RevisionError

pub data PublicationKind : Type 0 where
  creation approval : PublicationKind

pub data IntentStatus : Type 0 where
  pending finalized quarantined : IntentStatus

unfoldable pub kind_beq : PublicationKind → PublicationKind → Bool
kind_beq creation creation = true
kind_beq approval approval = true
kind_beq _ _ = false

unfoldable pub status_beq : IntentStatus → IntentStatus → Bool
status_beq pending pending = true
status_beq finalized finalized = true
status_beq quarantined quarantined = true
status_beq _ _ = false

pub kind_beq_iff : (a b : PublicationKind) → (kind_beq a b ≡ true) ↔ (a ≡ b)
unfolding kind_beq
kind_beq_iff a b = ground arith

pub status_beq_iff : (a b : IntentStatus) → (status_beq a b ≡ true) ↔ (a ≡ b)
unfolding status_beq
status_beq_iff a b = ground arith

pub record FileHash : Type 0 where
  pub relative_path : String
  pub sha256 : String

unfoldable pub file_beq : FileHash → FileHash → Bool
file_beq f g = f.relative_path == g.relative_path && f.sha256 == g.sha256

pub file_beq_iff : (f g : FileHash) → (file_beq f g ≡ true) ↔ (f ≡ g)
unfolding file_beq
file_beq_iff f g = ground (arith, eq_iff f.relative_path g.relative_path, eq_iff f.sha256 g.sha256)

instance abbrev pub file_eq : Eq FileHash
file_eq = record { beq = file_beq; beq_iff = file_beq_iff }

pub record SnapshotManifest : Type 0 where
  pub campaign_id : String
  pub revision_id : String
  pub parent_revision : Option String
  pub ordinal : ℕ
  pub tree_digest : String
  pub files : List FileHash
  pub framework_version : String
  pub adapter_version : String
  pub validation_contract_digest : String
  pub change_digest : String
  pub publication_intent_token : String
  pub manifest_version : ℕ

pub record PublicationIntent : Type 0 where
  pub intent_id : String
  pub intent_token : String
  pub kind : PublicationKind
  pub campaign_id : String
  pub revision_id : String
  pub parent_revision : Option String
  pub ordinal : ℕ
  pub tree_digest : String
  pub change_digest : String
  pub status : IntentStatus

-- `==` of the two dataclasses, field by field.
unfoldable pub manifest_beq : SnapshotManifest → SnapshotManifest → Bool
manifest_beq m n =
    m.campaign_id == n.campaign_id
    && m.revision_id == n.revision_id
    && m.parent_revision == n.parent_revision
    && m.ordinal == n.ordinal
    && m.tree_digest == n.tree_digest
    && m.files == n.files
    && m.framework_version == n.framework_version
    && m.adapter_version == n.adapter_version
    && m.validation_contract_digest == n.validation_contract_digest
    && m.change_digest == n.change_digest
    && m.publication_intent_token == n.publication_intent_token
    && m.manifest_version == n.manifest_version

pub manifest_beq_iff : (m n : SnapshotManifest) → (manifest_beq m n ≡ true) ↔ (m ≡ n)
unfolding manifest_beq
manifest_beq_iff m n = ground (
  arith,
  eq_iff m.campaign_id n.campaign_id,
  eq_iff m.revision_id n.revision_id,
  option_beq_iff m.parent_revision n.parent_revision,
  eq_iff m.tree_digest n.tree_digest,
  list_beq_iff m.files n.files,
  eq_iff m.framework_version n.framework_version,
  eq_iff m.adapter_version n.adapter_version,
  eq_iff m.validation_contract_digest n.validation_contract_digest,
  eq_iff m.change_digest n.change_digest,
  eq_iff m.publication_intent_token n.publication_intent_token,
)

unfoldable pub intent_beq : PublicationIntent → PublicationIntent → Bool
intent_beq i j =
    i.intent_id == j.intent_id
    && i.intent_token == j.intent_token
    && kind_beq i.kind j.kind
    && i.campaign_id == j.campaign_id
    && i.revision_id == j.revision_id
    && i.parent_revision == j.parent_revision
    && i.ordinal == j.ordinal
    && i.tree_digest == j.tree_digest
    && i.change_digest == j.change_digest
    && status_beq i.status j.status

pub intent_beq_iff : (i j : PublicationIntent) → (intent_beq i j ≡ true) ↔ (i ≡ j)
unfolding intent_beq
intent_beq_iff i j = ground (
  arith,
  eq_iff i.intent_id j.intent_id,
  eq_iff i.intent_token j.intent_token,
  kind_beq_iff i.kind j.kind,
  eq_iff i.campaign_id j.campaign_id,
  eq_iff i.revision_id j.revision_id,
  option_beq_iff i.parent_revision j.parent_revision,
  eq_iff i.tree_digest j.tree_digest,
  eq_iff i.change_digest j.change_digest,
  status_beq_iff i.status j.status,
)
