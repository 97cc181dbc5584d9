-- ===== src/Atlas/History.antt =====
-- hosted/projections/atlas_rebuild.py: `_history_changes`, what a revision has changed against its parent.
pub mod Differences
pub mod Reported
use warden_drydock.Prelude.{
  ℕ, String, Bool, true, false, not, List, [], ◌∷◌, ◌++◌, Option, none, some, ◌&&◌, ◌||◌, ◌==◌,
  string_eq, option_eq, if◌then◌else◌,
}
use warden_drydock.Prelude.Dict.{Dict, lookup, insert, keys}
use warden_drydock.Prelude.Sets.{dedup}
use warden_drydock.Prelude.Sort.{sort}
use warden_drydock.Prelude.Text.{str_leb}
use warden_drydock.Prelude.Result.{Result, ok, err, ◌>>=◌}
use warden_drydock.Revisions.Models.{RevisionError, value_error, snapshot_lineage, SnapshotManifest}
use warden_drydock.Atlas.Models.{
  AtlasRecord, AtlasHistoryChange, HistoryChangeKind, added, removed, content_changed,
  metadata_changed, authority_transition, status_beq, authority_beq, change_leb, is_valid_change,
}

-- `{item.record_id: item for item in records}`
unfoldable pub by_record : List AtlasRecord → Dict String AtlasRecord → Dict String AtlasRecord
by_record [] d = d
by_record (r ∷ rs) d = by_record rs (insert r.record_id r d)

unfoldable pub added_change : SnapshotManifest → String → AtlasRecord → AtlasHistoryChange
added_change m id after = record {
  record_id = id;
  change_kind = added;
  link_revision_id = m.revision_id;
  before_content_digest = none;
  after_content_digest = some after.content_digest;
  before_status = none;
  after_status = some after.raw_status;
  from_authority = none;
  to_authority = some after.authority;
}

unfoldable pub removed_change : String → String → AtlasRecord → AtlasHistoryChange
removed_change parent id before = record {
  record_id = id;
  change_kind = removed;
  link_revision_id = parent;
  before_content_digest = some before.content_digest;
  after_content_digest = none;
  before_status = some before.raw_status;
  after_status = none;
  from_authority = some before.authority;
  to_authority = none;
}

-- The change of a record that both revisions have.
unfoldable pub kept_change :
    SnapshotManifest → String → AtlasRecord → AtlasRecord → HistoryChangeKind → AtlasHistoryChange
kept_change m id before after kind = record {
  record_id = id;
  change_kind = kind;
  link_revision_id = m.revision_id;
  before_content_digest = some before.content_digest;
  after_content_digest = some after.content_digest;
  before_status = some before.raw_status;
  after_status = some after.raw_status;
  from_authority = some before.authority;
  to_authority = some after.authority;
}

unfoldable pub same_metadata : AtlasRecord → AtlasRecord → Bool
unfolding status_beq
same_metadata before after =
    before.record_type == after.record_type
    && before.name == after.name
    && status_beq before.raw_status after.raw_status

-- The kinds of change of such a record.
unfoldable pub kinds_of : AtlasRecord → AtlasRecord → List HistoryChangeKind
unfolding same_metadata authority_beq
kinds_of before after =
    (if before.content_digest == after.content_digest then [] else content_changed ∷ [])
    ++ (if same_metadata before after then [] else metadata_changed ∷ [])
    ++ (if authority_beq before.authority after.authority then [] else authority_transition ∷ [])

unfoldable pub kept_changes :
    SnapshotManifest
    → String
    → AtlasRecord
    → AtlasRecord
    → List HistoryChangeKind
    → List AtlasHistoryChange
unfolding kept_change
kept_changes m id before after [] = []
kept_changes m id before after (k ∷ ks) =
    kept_change m id before after k ∷ kept_changes m id before after ks

removal : Option String → String → AtlasRecord → Result RevisionError (List AtlasHistoryChange)
unfolding removed_change
removal none id before = err snapshot_lineage
removal (some parent) id before = ok (removed_change parent id before ∷ [])

-- The changes of one record, by what each revision has under its ID.
unfoldable pub changes_of :
    SnapshotManifest
    → String
    → Option AtlasRecord
    → Option AtlasRecord
    → Result RevisionError (List AtlasHistoryChange)
unfolding added_change removal kept_changes kinds_of
changes_of m id none none = ok []
changes_of m id none (some after) = ok (added_change m id after ∷ [])
changes_of m id (some before) none = removal m.parent_revision id before
changes_of m id (some before) (some after) =
    ok (kept_changes m id before after (kinds_of before after))

-- The constructor of each change refuses one that is not valid.
checked : List AtlasHistoryChange → Result RevisionError (List AtlasHistoryChange)
unfolding is_valid_change
checked [] = ok []
checked (c ∷ cs) =
    let rest = checked cs in
    if is_valid_change c then (rest >>= λ ds. ok (c ∷ ds)) else err value_error

unfoldable pub all_changes :
    SnapshotManifest
    → Dict String AtlasRecord
    → Dict String AtlasRecord
    → List String
    → Result RevisionError (List AtlasHistoryChange)
unfolding changes_of checked
all_changes m previous current [] = ok []
all_changes m previous current (id ∷ ids) = do
  found ← changes_of m id (lookup id previous) (lookup id current)
  here ← checked found
  rest ← all_changes m previous current ids
  ok (here ++ rest)

-- `sorted(current.keys() | previous.keys())`
unfoldable pub record_ids : Dict String AtlasRecord → Dict String AtlasRecord → List String
record_ids previous current = sort str_leb (dedup (keys current ++ keys previous))

-- `_history_changes`
unfoldable pub history_changes :
    SnapshotManifest
    → List AtlasRecord
    → List AtlasRecord
    → Result RevisionError (List AtlasHistoryChange)
unfolding by_record all_changes record_ids change_leb
history_changes m records parent_records =
    let current = by_record records [] in
    let previous = by_record parent_records [] in
    all_changes m previous current (record_ids previous current) >>= λ cs. ok (sort change_leb cs)
