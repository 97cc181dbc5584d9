-- ===== src/Proposals/Repository.antt =====
-- hosted/proposals/service.py: `InMemoryProposalRepository`, without the methods of the editor. Each
-- method returns the result and the repository that it leaves; a method that only reads returns the
-- result. A call is one step: most methods hold the lock or are one read. `add`, `replace_status` and
-- `finalize` do not hold it, and are taken one at a time here.
use warden_drydock.Prelude.{
  ℕ, ◌+◌, String, Bool, false, not, Option, none, some, List, [], ◌∷◌, ◌++◌, ◌||◌, ◌==◌, leb,
  length, nat_eq, string_eq, option_eq, pair_eq, if◌then◌else◌,
}
use warden_drydock.Prelude.Dict.{Dict, lookup, insert, values}
use warden_drydock.Prelude.Result.{Result, ok, err}
use warden_drydock.Revisions.Models.{SnapshotManifest}
use warden_drydock.Proposals.Models.{
  ProposalError, value_error, key_error, ProposalStatus, draft, rejected, approving, conflict,
  status_beq, ExactTextChange, ProposalVersion, check_version, are_bad_changes,
}

abbrev pub Key : Type 0
Key = String × ℕ

-- `created_at` counts the seconds after the first day of the year 2000.
pub record Repository : Type 0 where
  pub items : Dict Key ProposalVersion
  pub audit : List (Key × ProposalStatus)
  pub created_at : Dict Key ℕ
  pub editor_workflow : Dict String ℕ

abbrev pub empty : Repository
empty = record { items = []; audit = []; created_at = []; editor_workflow = [] }

abbrev pub key_of : ProposalVersion → Key
key_of v = (v.proposal_id, v.version)

unfoldable pub max : ℕ → ℕ → ℕ
max a b = if leb a b then b else a

-- The greatest version of the proposal, or 0.
unfoldable pub last_version : String → List ProposalVersion → ℕ
unfolding max
last_version id [] = 0
last_version id (v ∷ vs) =
    let rest = last_version id vs in if v.proposal_id == id then max v.version rest else rest

unfoldable pub next_version : String → Repository → ℕ
unfolding last_version values
next_version id r = last_version id (values r.items) + 1

-- `items[key]`
unfoldable pub get_of : Option ProposalVersion → Result ProposalError ProposalVersion
get_of none = err key_error
get_of (some v) = ok v

unfoldable pub get : Key → Repository → Result ProposalError ProposalVersion
unfolding get_of
get k r = get_of (lookup k r.items)

-- `items[key] = version` and the entry of the audit with its status.
unfoldable pub put : Key → ProposalVersion → Repository → Repository
put k v r = record r { items = insert k v r.items; audit = r.audit ++ (k, v.status) ∷ [] }

unfoldable pub stamp : Key → Repository → Repository
stamp k r = record r { created_at = insert k (length r.created_at) r.created_at }

unfoldable pub add : ProposalVersion → Repository → Repository
unfolding put stamp
add item r = put (key_of item) item (stamp (key_of item) r)

unfoldable pub replace_status_of :
    Key
    → ProposalStatus
    → Option ProposalVersion
    → Repository
    → Result ProposalError ProposalVersion × Repository
unfolding put
replace_status_of k status none r = (err key_error, r)
replace_status_of k status (some current) r =
    let updated : ProposalVersion = record current { status = status } in
    if status_beq current.status status then (ok current, r) else (ok updated, put k updated r)

unfoldable pub replace_status :
    ProposalVersion
    → ProposalStatus
    → Repository
    → Result ProposalError ProposalVersion × Repository
unfolding replace_status_of
replace_status item status r =
    replace_status_of (key_of item) status (lookup (key_of item) r.items) r

unfoldable pub claim_of :
    Key
    → Option ProposalVersion
    → Repository
    → Result ProposalError (Option ProposalVersion) × Repository
unfolding put
claim_of k none r = (err key_error, r)
claim_of k (some current) r =
    let updated : ProposalVersion = record current { status = approving } in
    if status_beq current.status draft then (ok (some updated), put k updated r) else (ok none, r)

unfoldable pub claim :
    ProposalVersion → Repository → Result ProposalError (Option ProposalVersion) × Repository
unfolding claim_of
claim item r = claim_of (key_of item) (lookup (key_of item) r.items) r

unfoldable pub reject_of :
    Key
    → Option ProposalVersion
    → Repository
    → Result ProposalError (Option ProposalVersion) × Repository
unfolding put
reject_of k none r = (err key_error, r)
reject_of k (some current) r =
    let updated : ProposalVersion = record current { status = rejected } in
    if status_beq current.status rejected
    then (ok (some current), r)
    else if status_beq current.status draft
    then (ok (some updated), put k updated r)
    else (ok none, r)

unfoldable pub reject :
    ProposalVersion → Repository → Result ProposalError (Option ProposalVersion) × Repository
unfolding reject_of
reject item r = reject_of (key_of item) (lookup (key_of item) r.items) r

-- `base_revision or current.base_revision`
or_base : Option String → String → String
or_base none base = base
or_base (some revision) base = if revision == "" then base else revision

unfoldable pub corrected_version :
    (List ExactTextChange → String)
    → (List ExactTextChange → String)
    → ProposalVersion
    → ℕ
    → List ExactTextChange
    → Option String
    → ProposalVersion
    → ProposalVersion
unfolding or_base
corrected_version diff_digest payload_digest item version changes base current = record {
  proposal_id = item.proposal_id;
  version = version;
  campaign_id = item.campaign_id;
  base_revision = or_base base current.base_revision;
  changes = changes;
  diff_digest = diff_digest changes;
  payload_digest = payload_digest changes;
  status = draft;
  generation_id = current.generation_id;
  source_revision = current.source_revision;
  source_set_digest = current.source_set_digest;
  terminal_draft_digest = current.terminal_draft_digest;
  published_revision_id = none;
  editor_metadata = current.editor_metadata;
}

-- The writes of `correct`, once the new version has been constructed.
unfoldable pub replace_by :
    Key
    → ProposalVersion
    → Result ProposalError ProposalVersion
    → Repository
    → Result ProposalError (Option ProposalVersion) × Repository
unfolding put stamp
replace_by k retired (err e) r = (err e, r)
replace_by k retired (ok new) r =
    (ok (some new), put (key_of new) new (stamp (key_of new) (put k retired r)))

unfoldable pub correct_of :
    (List ExactTextChange → String)
    → (List ExactTextChange → String)
    → ProposalVersion
    → List ExactTextChange
    → Option String
    → Option ProposalVersion
    → Repository
    → Result ProposalError (Option ProposalVersion) × Repository
unfolding replace_by check_version corrected_version
correct_of diff_digest payload_digest item changes base none r = (err key_error, r)
correct_of diff_digest payload_digest item changes base (some current) r =
    let retired : ProposalVersion = record current { status = rejected } in
    let new =
      corrected_version diff_digest payload_digest item (next_version item.proposal_id r) changes
        base current in
    if not (status_beq current.status draft || status_beq current.status conflict)
    then (ok none, r)
    else if are_bad_changes changes
    then (err value_error, r)
    else replace_by (key_of item) retired (check_version new) r

unfoldable pub correct :
    (List ExactTextChange → String)
    → (List ExactTextChange → String)
    → ProposalVersion
    → List ExactTextChange
    → Option String
    → Repository
    → Result ProposalError (Option ProposalVersion) × Repository
unfolding correct_of
correct diff_digest payload_digest item changes base r =
    correct_of diff_digest payload_digest item changes base (lookup (key_of item) r.items) r

-- `revision_id or current.published_revision_id`
unfoldable pub or_revision : Option String → Option String → Option String
or_revision none before = before
or_revision (some revision) before = if revision == "" then before else some revision

revision_of : Option SnapshotManifest → Option String
revision_of none = none
revision_of (some m) = some m.revision_id

-- A revision was given and it is not the one that is recorded.
unfoldable pub rebinds : Option String → ProposalVersion → Bool
rebinds none current = false
rebinds (some revision) current = not (current.published_revision_id == some revision)

unfoldable pub finalize_of :
    Key
    → ProposalStatus
    → Option String
    → Option ProposalVersion
    → Repository
    → Result ProposalError ProposalVersion × Repository
unfolding put rebinds or_revision
finalize_of k status revision none r = (err key_error, r)
finalize_of k status revision (some current) r =
    let updated : ProposalVersion = record current {
      status = status;
      published_revision_id = or_revision revision current.published_revision_id;
    } in
    if status_beq current.status status
    then (if rebinds revision current then (err value_error, r) else (ok current, r))
    else (ok updated, put k updated r)

unfoldable pub finalize :
    ProposalVersion
    → ProposalStatus
    → Option SnapshotManifest
    → Repository
    → Result ProposalError ProposalVersion × Repository
unfolding finalize_of revision_of
finalize item status result r =
    finalize_of (key_of item) status (revision_of result) (lookup (key_of item) r.items) r
