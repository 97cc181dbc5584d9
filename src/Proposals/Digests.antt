-- ===== src/Proposals/Digests.antt =====
-- The digests of changes and of the editor's metadata: hosted/proposals/service.py, and `content_digest`
-- and `exact_diff_digest` of hosted/engine/models.py. `sha256` (hashlib) and `dumps` (json.dumps) are
-- parameters.
use Prim.Native.Char.{code}
use warden_drydock.Prelude.{
  String, Bool, true, false, Option, none, some, List, ◌&&◌, ◌==◌, map, nat_beq, string_eq,
  option_eq, list_eq, if◌then◌else◌,
}
use Prim.Native.String.{◌++◌}
use warden_drydock.Proposals.Models.{ChangeKind, ExactTextChange, EditorMetadata, ProposalVersion}

-- `replace("\r\n", "\n").replace("\r", "\n")`; the flag says that a carriage return came before.
normalize : Bool → String → String
normalize after_return String.[] = ""
normalize after_return (String.◌∷◌ c s) =
    let begun = normalize true s in
    let others = normalize false s in
    if nat_beq (code c) 13
    then "\n" ++ begun
    else if nat_beq (code c) 10 && after_return
    then others
    else String.◌∷◌ c others

abbrev pub editor_contract : Option String
editor_contract = some "editor_proposal_view"

unfoldable pub is_editor_view : Option EditorMetadata → Bool
is_editor_view none = false
is_editor_view (some m) = m.contract_name == editor_contract

-- The keys that the digest of a list of changes covers, one object for each change.
pub record ChangeDigest : Type 0 where
  pub change_id : String
  pub change_kind : ChangeKind
  pub expected_content_digest : Option String
  pub record_type : Option String
  pub replacement_digest : String
  pub subject_id : String

module _ (sha256 : String → String) where
  content_digest : String → String
  unfolding normalize
  content_digest content = sha256 (normalize false content)

  encode : ExactTextChange → ChangeDigest
  unfolding content_digest
  encode c = record {
    change_id = c.change_id;
    change_kind = c.change_kind;
    expected_content_digest = c.expected_content_digest;
    record_type = c.record_type;
    replacement_digest = content_digest c.replacement;
    subject_id = c.subject_id;
  }

  unfoldable pub exact_diff_digest : (List ChangeDigest → String) → List ExactTextChange → String
  unfolding encode
  exact_diff_digest dumps changes = sha256 (dumps (map encode changes))

  unfoldable pub publication_digest : (List ChangeDigest → String) → ProposalVersion → String
  unfolding exact_diff_digest is_editor_view
  publication_digest dumps v =
      if is_editor_view v.editor_metadata then exact_diff_digest dumps v.changes else v.diff_digest

  -- `_retire_editor_metadata`: the digest is of the other keys.
  unfoldable pub retire_editor_metadata :
      (EditorMetadata → String) → Option EditorMetadata → Option EditorMetadata
  retire_editor_metadata dumps none = none
  retire_editor_metadata dumps (some m) =
      let retired : EditorMetadata = record m {
        core_status = "rejected";
        approval_binding = none;
        publication_status = "not_published";
        published_revision = none;
        proposal_payload_digest = none;
      } in
      if m.contract_name == editor_contract
      then some (record retired { proposal_payload_digest = some (sha256 (dumps retired)) })
      else some m
