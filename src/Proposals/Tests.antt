-- ===== src/Proposals/Tests.antt =====
-- A proposal that is drafted and approved, and the theorems at it. Every digest is the same text.
use warden_drydock.Prelude.{
  String, ◌≡◌, ◌≢◌, refl, true, none, some, List, [], ◌∷◌, ◌⊎◌, string_eq, nat_eq, pair_eq,
}
use warden_drydock.Prelude.Dict.{lookup, insert, values}
use warden_drydock.Prelude.Result.{ok}
use warden_drydock.Revisions.Models.{SnapshotManifest}
use warden_drydock.Proposals.Models.{
  draft, published, status_beq, update, ExactTextChange, EditorMetadata, absent, ProposalVersion,
  check_version, are_bad_changes,
}
use warden_drydock.Proposals.Digests.{ChangeDigest, publication_digest, is_editor_view}
use warden_drydock.Proposals.Repository.{
  Repository, empty, key_of, next_version, last_version, add, claim, get, finalize,
}
use warden_drydock.Proposals.Machine.{IsKeyed, Edits, Edits-IsKeyed}
use warden_drydock.Proposals.Service.{
  Callbacks, Provenance, staged, snapshot, draft_proposal, approve, draft_item, is_bound,
}
use warden_drydock.Proposals.Service.Calls.{Calls, none_yet, next, drafts, approves, Calls-Edits}
use warden_drydock.Proposals.Service.Published.{Approved, approve-Approved}
use warden_drydock.Proposals.Frozen.{Remains, Calls-Remains}
use warden_drydock.Proposals.Trail.{last_status, status_at, Calls-IsTrailed, empty-IsKeyed}
use warden_drydock.Proposals.Editor.{add_editor, editor_workflow_version, save_editor_metadata}
use warden_drydock.Proposals.Editor.Lasting.{Stays, not_yet, serves, saves, Work-Stays}
use warden_drydock.Proposals.Editor.Turns.{add_editor-Turn, add_editor_twice, Turn}

abbrev digest : String
digest = "aaaaaaaaaaaaaaaaaaaaaaaaaaaaaaaaaaaaaaaaaaaaaaaaaaaaaaaaaaaaaaaa"

abbrev sha256 : String → String
sha256 text = digest

abbrev dumps : List ChangeDigest → String
dumps changes = ""

abbrev manifest : SnapshotManifest
manifest = record {
  campaign_id = "campaign_one";
  revision_id = "revision_two";
  parent_revision = some "revision_one";
  ordinal = 2;
  tree_digest = digest;
  files = [];
  framework_version = "0.2.0";
  adapter_version = "1.0.0";
  validation_contract_digest = digest;
  change_digest = digest;
  publication_intent_token = "token_one";
  manifest_version = 1;
}

abbrev callbacks : Callbacks
callbacks = record {
  head = λ campaign. ok (some "revision_one");
  stage = λ v. ok staged;
  publish = λ v. ok (snapshot manifest);
  verify_publication = none;
  diff_digest = λ changes. digest;
  payload_digest = λ changes. digest;
}

abbrev change : ExactTextChange
change = record {
  change_id = "change_one";
  subject_id = "npc-one";
  expected_content_digest = none;
  replacement = "text";
  change_kind = update;
  record_type = none;
}

abbrev no_provenance : Provenance
no_provenance = record {
  generation_id = none;
  source_revision = none;
  source_set_digest = none;
  terminal_draft_digest = none;
}

abbrev first : ProposalVersion
first =
    draft_item sha256 dumps callbacks "proposal_one" "campaign_one" "revision_one" (change ∷ [])
      no_provenance 1

abbrev drafted : Repository
drafted =
    (draft_proposal sha256 dumps callbacks "proposal_one" "campaign_one" "revision_one"
      (change ∷ []) no_provenance empty).1

abbrev after : Repository
after = (approve sha256 dumps callbacks first digest "revision_one" digest drafted).1

abbrev calls_drafted : Calls sha256 dumps callbacks empty drafted
calls_drafted =
    next none_yet (drafts "proposal_one" "campaign_one" "revision_one" (change ∷ []) no_provenance)

abbrev calls : Calls sha256 dumps callbacks empty after
calls = next calls_drafted (approves first digest "revision_one" digest)

Calls-Edits_example : Edits empty after
Calls-Edits_example = Calls-Edits sha256 dumps callbacks empty after calls empty-IsKeyed

Calls-IsTrailed_example :
    last_status ("proposal_one", 1) after.audit ≡ status_at (lookup ("proposal_one", 1) after.items)
Calls-IsTrailed_example = Calls-IsTrailed sha256 dumps callbacks after ("proposal_one", 1) calls

-- The repository with the draft alone.
abbrev one : Repository
one = record {
  items = (key_of first, first) ∷ [];
  audit = (key_of first, draft) ∷ [];
  created_at = (key_of first, 0) ∷ [];
  editor_workflow = [];
}

drafted-one : drafted ≡ one
unfolding draft_proposal are_bad_changes check_version next_version add insert
drafted-one = refl

drafted-IsKeyed : IsKeyed drafted
drafted-IsKeyed =
    Edits-IsKeyed (Calls-Edits sha256 dumps callbacks empty drafted calls_drafted empty-IsKeyed)
      empty-IsKeyed

abbrev approved_first : ProposalVersion
approved_first = record first { status = published; published_revision_id = some "revision_two" }

Calls-Remains_example : Remains ("proposal_one", 1) first after
unfolding draft_proposal are_bad_changes check_version next_version add insert lookup
Calls-Remains_example =
    Calls-Remains sha256 dumps callbacks drafted after ("proposal_one", 1) first
      (next none_yet (approves first digest "revision_one" digest)) drafted-IsKeyed refl

approve-Approved_example :
    (lookup (key_of first) drafted.items ≡ some approved_first)
    ⊎ Approved sha256 dumps callbacks (key_of first) digest "revision_one" digest drafted
unfolding draft_proposal are_bad_changes check_version next_version add insert lookup approve claim
    get finalize status_beq is_bound publication_digest is_editor_view
approve-Approved_example =
    approve-Approved sha256 dumps callbacks first digest "revision_one" digest drafted
      approved_first drafted-IsKeyed refl refl

abbrev metadata : EditorMetadata
metadata = record {
  contract_name = some "editor_proposal_view";
  editor_workflow_version = some 2;
  correction_of = absent;
  core_status = "draft";
  approval_binding = none;
  publication_status = "not_published";
  published_revision = none;
  proposal_payload_digest = none;
  rest = "{}";
}

abbrev edited : ProposalVersion
edited = record first { editor_metadata = some metadata }

abbrev no_text : EditorMetadata → String
no_text m = ""

add_editor-Turn_example :
    Turn edited "campaign_one" 1 empty (add_editor sha256 no_text edited "campaign_one" 1 empty)
add_editor-Turn_example = add_editor-Turn sha256 no_text edited "campaign_one" 1 empty

add_editor_twice_example :
    (add_editor sha256 no_text edited "campaign_one" 1
      (add_editor sha256 no_text edited "campaign_one" 1 empty).1).0
    ≢ ok true
unfolding add_editor editor_workflow_version lookup next_version last_version values draft_item
add_editor_twice_example = add_editor_twice sha256 no_text edited edited "campaign_one" 1 empty refl

-- The draft is published, and its editor metadata is rewritten after that.
Work-Stays_example :
    Stays ("proposal_one", 1) first (save_editor_metadata ("proposal_one", 1) none none after).1
unfolding draft_proposal are_bad_changes check_version next_version add insert lookup
Work-Stays_example =
    Work-Stays sha256 dumps no_text callbacks drafted
      (save_editor_metadata ("proposal_one", 1) none none after).1 ("proposal_one", 1) first
      (saves ("proposal_one", 1) none none
        (serves not_yet (next none_yet (approves first digest "revision_one" digest))))
      drafted-IsKeyed refl
