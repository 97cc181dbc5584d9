-- ===== src/Proposals/Editor.antt =====
-- hosted/proposals/service.py: the methods of `InMemoryProposalRepository` that serve the editor,
-- whose workflow version is compared and advanced.
pub mod Lasting
pub mod Turns
use warden_drydock.Prelude.{
  ℕ, ◌+◌, String, ◌≡◌, refl, ◌∙◌, ap, Bool, true, false, not, Option, none, some, List, [], ◌∷◌,
  ◌++◌, ◌&&◌, ◌||◌, ◌==◌, leb, ltb, nat_eq, string_eq, option_eq, pair_eq, filter, inl, inr,
  Bool-cases, arith, beq_self, if◌then◌else◌,
}
use warden_drydock.Prelude.Dict.{lookup, insert, values, lookup-insert, lookup-insert_self}
use warden_drydock.Prelude.Sort.{sort}
use warden_drydock.Prelude.Text.{str_leb}
use warden_drydock.Prelude.Result.{Result, ok, err}
use warden_drydock.Proposals.Models.{
  ProposalError, value_error, key_error, draft, rejected, conflict, status_beq, EditorMetadata,
  Correction, absent, malformed, corrects, ProposalVersion,
}
use warden_drydock.Proposals.Digests.{retire_editor_metadata}
use warden_drydock.Proposals.Repository.{
  Key, Repository, key_of, max, next_version, put, stamp, or_revision,
}

has_metadata : ProposalVersion → Bool
has_metadata v = elim v.editor_metadata [ none ↦ false | some _ ↦ true ]

-- `get("editor_workflow_version", 1)`. The source takes 1 off before the maximum and adds 1 after it.
workflow_of : Option EditorMetadata → ℕ
workflow_of none = 1
workflow_of (some m) = elim m.editor_workflow_version [ none ↦ 1 | some n ↦ n ]

-- The maximum of the campaign's versions that have metadata, or nothing.
latest : String → List ProposalVersion → Option ℕ
unfolding workflow_of has_metadata max
latest campaign [] = none
latest campaign (v ∷ vs) =
    let rest = latest campaign vs in
    if v.campaign_id == campaign && has_metadata v
    then some (elim rest [
      | none ↦ workflow_of v.editor_metadata
      | some n ↦ max (workflow_of v.editor_metadata) n
    ])
    else rest

or_one : Option ℕ → ℕ
or_one none = 1
or_one (some n) = n

or_latest : Option ℕ → Option ℕ → ℕ
unfolding or_one
or_latest (some n) others = n
or_latest none others = or_one others

unfoldable pub editor_workflow_version : String → Repository → ℕ
unfolding or_latest latest
editor_workflow_version campaign r =
    or_latest (lookup campaign r.editor_workflow) (latest campaign (values r.items))

key_leb : ProposalVersion → ProposalVersion → Bool
key_leb v w =
    if v.proposal_id == w.proposal_id
    then leb v.version w.version
    else str_leb v.proposal_id w.proposal_id

editor_proposals : Repository → List ProposalVersion
unfolding key_leb has_metadata
editor_proposals r = sort key_leb (filter has_metadata (values r.items))

unfoldable pub advance : String → ℕ → Repository → Repository
advance campaign version r = record r {
  editor_workflow = insert campaign version r.editor_workflow;
}

unfoldable pub advance_editor : String → ℕ → Repository → Bool × Repository
unfolding advance editor_workflow_version
advance_editor campaign expected r =
    if editor_workflow_version campaign r == expected
    then (true, advance campaign (expected + 1) r)
    else (false, r)

pub save_found :
    Key
    → Option EditorMetadata
    → Option String
    → Option ProposalVersion
    → Repository
    → Result ProposalError ProposalVersion × Repository
unfolding or_revision
save_found k metadata revision none r = (err key_error, r)
save_found k metadata revision (some current) r =
    let updated : ProposalVersion = record current {
      editor_metadata = metadata;
      published_revision_id = or_revision revision current.published_revision_id;
    } in
    (ok updated, record r { items = insert k updated r.items })

pub save_editor_metadata :
    Key
    → Option EditorMetadata
    → Option String
    → Repository
    → Result ProposalError ProposalVersion × Repository
unfolding save_found
save_editor_metadata k metadata revision r = save_found k metadata revision (lookup k r.items) r

-- The writes at the end of `add_editor`.
unfoldable pub add_item : ProposalVersion → String → ℕ → Repository → Repository
unfolding put stamp advance
add_item item campaign expected r =
    let new : ProposalVersion = record item { status = draft } in
    put (key_of new) new (advance campaign (expected + 1) (stamp (key_of new) r))

-- The conditions on the version that is corrected.
can_correct : ProposalVersion → ProposalVersion → Bool
unfolding has_metadata
can_correct prior item =
    has_metadata prior
    && prior.proposal_id == item.proposal_id
    && prior.campaign_id == item.campaign_id
    && (status_beq prior.status draft || status_beq prior.status conflict)
    && item.version == prior.version + 1

module _ (sha256 : String → String) (dumps : EditorMetadata → String) where
  -- The version that is corrected, once it is retired.
  unfoldable pub retired : ProposalVersion → ProposalVersion
  unfolding retire_editor_metadata
  retired prior = record prior {
    status = rejected;
    editor_metadata = retire_editor_metadata sha256 dumps prior.editor_metadata;
  }

  pub add_over :
      Option ProposalVersion
      → ProposalVersion
      → String
      → ℕ
      → Repository
      → Result ProposalError Bool × Repository
  unfolding add_item can_correct put retired
  add_over none item campaign expected r = (ok false, r)
  add_over (some prior) item campaign expected r =
      if can_correct prior item
      then (ok true, add_item item campaign expected (put (key_of prior) (retired prior) r))
      else (ok false, r)

  pub add_correction :
      Correction
      → ProposalVersion
      → String
      → ℕ
      → Repository
      → Result ProposalError Bool × Repository
  unfolding add_over add_item
  add_correction absent item campaign expected r = (ok true, add_item item campaign expected r)
  add_correction malformed item campaign expected r = (ok false, r)
  add_correction (corrects id version) item campaign expected r =
      add_over (lookup (id, version) r.items) item campaign expected r

  pub add_with :
      Option EditorMetadata
      → ProposalVersion
      → String
      → ℕ
      → Repository
      → Result ProposalError Bool × Repository
  unfolding add_correction
  add_with none item campaign expected r = (ok false, r)
  add_with (some m) item campaign expected r =
      if not (m.editor_workflow_version == some (expected + 1))
      then (ok false, r)
      else if not (editor_workflow_version campaign r == expected)
      then (ok false, r)
      else if not (next_version item.proposal_id r == item.version)
      then (err value_error, r)
      else add_correction m.correction_of item campaign expected r

  unfoldable pub add_editor :
      ProposalVersion → String → ℕ → Repository → Result ProposalError Bool × Repository
  unfolding add_with
  add_editor item campaign expected r =
      if not (campaign == item.campaign_id)
      then (ok false, r)
      else add_with item.editor_metadata item campaign expected r
