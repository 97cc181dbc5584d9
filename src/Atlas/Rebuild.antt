-- ===== src/Atlas/Rebuild.antt =====
-- hosted/projections/atlas_rebuild.py: `build` and the methods that store what it returns.
-- `proposal_provenance` is the function that the service gives, and `digest` the digest of the JSON
-- text of a bundle's contents.
pub mod Projected
use warden_drydock.Prelude.{
  ℕ, String, Bool, true, false, List, [], ◌∷◌, Option, none, some, ◌&&◌, ◌==◌, string_eq, nat_eq,
  option_eq, list_eq, pair_eq, leb, map, all,
}
use warden_drydock.Prelude.Dict.{lookup}
use warden_drydock.Prelude.Sets.{distinct}
use warden_drydock.Prelude.Sort.{sort}
use warden_drydock.Prelude.Text.{str_leb}
use warden_drydock.Prelude.Result.{Result, ok, err, ◌>>=◌, ◌>>◌, require}
use warden_drydock.Identifiers.{is_public_id, is_digest}
use warden_drydock.Campaign.Json.{Json}
use warden_drydock.Revisions.Models.{
  RevisionError, value_error, file_not_found, FileHash, SnapshotManifest,
}
use warden_drydock.Revisions.Canonical.{SourceTree}
use warden_drydock.Revisions.Store.{key_of, campaign_inventory}
use warden_drydock.Revisions.Service.{World}
use warden_drydock.Atlas.Models.{
  AtlasRecord, AtlasEdge, AtlasHistoryEntry, AtlasHistoryChange, AtlasProjectionBundle, edge_id,
  is_valid_entry, within,
}
use warden_drydock.Atlas.Lineage.{lineage_through, inventory_leb}
use warden_drydock.Atlas.Records.{Parsed, parse_records, ids_of}
use warden_drydock.Atlas.History.{history_changes}

optional_public_id : Option String → Bool
unfolding is_public_id
optional_public_id none = true
optional_public_id (some s) = is_public_id s

-- `lineage[-2]`, where there is one
unfoldable pub before_last : List SnapshotManifest → Option SnapshotManifest
before_last [] = none
before_last (m ∷ []) = none
before_last (m ∷ n ∷ []) = some m
before_last (m ∷ n ∷ o ∷ ms) = before_last (n ∷ o ∷ ms)

pub check_provenance : Option (String × ℕ) → Result RevisionError (Option (String × ℕ))
unfolding is_public_id
check_provenance none = ok none
check_provenance (some (id, version)) = do
  require (is_public_id id) value_error
  require (leb 1 version) value_error
  ok (some (id, version))

unfoldable pub entry_of :
    SnapshotManifest → List AtlasHistoryChange → Option (String × ℕ) → AtlasHistoryEntry
entry_of m changes proposal = record {
  revision_id = m.revision_id;
  parent_revision_id = m.parent_revision;
  ordinal = m.ordinal;
  tree_digest = m.tree_digest;
  change_digest = m.change_digest;
  changes = changes;
  proposal = proposal;
}

unfoldable pub bundle_of :
    ℕ → SnapshotManifest → Parsed → AtlasHistoryEntry → String → AtlasProjectionBundle
bundle_of projection_version m parsed entry digest = record {
  campaign_id = m.campaign_id;
  campaign_name = parsed.campaign_name;
  adapter_id = parsed.adapter_id;
  revision_id = m.revision_id;
  parent_revision_id = m.parent_revision;
  ordinal = m.ordinal;
  tree_digest = m.tree_digest;
  projection_version = projection_version;
  records = parsed.records;
  edges = parsed.edges;
  history_entry = entry;
  projection_digest = digest;
}

unfoldable pub tree_of : World → SnapshotManifest → Result RevisionError SourceTree
tree_of w m = elim (lookup (key_of m) w.store.snapshots) [
  | none ↦ err file_not_found
  | some stored ↦ ok stored.tree
]

module _ (sha256 : String → String) (dumps : ℕ → String → String → String) where
  has_identity : String → AtlasEdge → Bool
  unfolding edge_id
  has_identity revision e =
      elim (edge_id sha256 dumps revision e.source_record_id e.occurrence_order) [
        | ok id ↦ e.edge_id == id
        | err _ ↦ false
      ]

  -- The checks of `AtlasProjectionBundle`.
  unfoldable pub is_valid_bundle : AtlasProjectionBundle → Bool
  unfolding is_public_id is_digest optional_public_id within has_identity
  is_valid_bundle b =
      is_public_id b.campaign_id
      && is_public_id b.revision_id
      && optional_public_id b.parent_revision_id
      && is_digest b.tree_digest
      && is_digest b.projection_digest
      && leb 1 b.projection_version
      && leb 1 b.ordinal
      && within 1 200 b.campaign_name
      && b.adapter_id == "mothership"
      && b.history_entry.revision_id == b.revision_id
      && b.history_entry.parent_revision_id == b.parent_revision_id
      && b.history_entry.ordinal == b.ordinal
      && b.history_entry.tree_digest == b.tree_digest
      && sort str_leb (ids_of b.records) == ids_of b.records
      && distinct (ids_of b.records)
      && distinct (map (λ (e : AtlasEdge). e.edge_id) b.edges)
      && all (has_identity b.revision_id) b.edges

module _ (sha256 : String → String) (dumps : ℕ → String → String → String)
    (casefold : String → String) (decode : String → Option String)
    (loads : String → Option Json) where
  unfoldable pub parsed_at : World → SnapshotManifest → Result RevisionError Parsed
  unfolding tree_of parse_records
  parsed_at w m = do tree ← tree_of w m; parse_records sha256 dumps casefold decode loads m tree

  pub parent_records : World → Option SnapshotManifest → Result RevisionError (List AtlasRecord)
  unfolding parsed_at
  parent_records w none = ok []
  parent_records w (some m) = parsed_at w m >>= λ p. ok p.records

module _ (sha256 : String → String) (dumps_files : List FileHash → String)
    (dumps : ℕ → String → String → String) (casefold : String → String)
    (decode : String → Option String) (loads : String → Option Json)
    (proposal_provenance : String → String → Option (String × ℕ))
    (digest : SnapshotManifest → Parsed → AtlasHistoryEntry → String) where
  unfoldable pub build :
      World → ℕ → Bool → SnapshotManifest → Result RevisionError AtlasProjectionBundle
  unfolding lineage_through parsed_at parent_records before_last check_provenance history_changes
      is_valid_entry is_valid_bundle entry_of bundle_of
  build w projection_version allow_pending m = do
    lineage ← lineage_through sha256 dumps_files w allow_pending m
    parsed ← parsed_at sha256 dumps casefold decode loads w m
    previous ← parent_records sha256 dumps casefold decode loads w (before_last lineage)
    proposal ← check_provenance (proposal_provenance m.campaign_id m.revision_id)
    changes ← history_changes m parsed.records previous
    let entry = entry_of m changes proposal
    require (is_valid_entry entry) value_error
    let bundle = bundle_of projection_version m parsed entry (digest m parsed entry)
    require (is_valid_bundle sha256 dumps bundle) value_error
    ok bundle

  -- `rebuild` and `rebuild_pending`: the bundles that are handed to `repository.replace`.
  unfoldable pub rebuild : World → ℕ → SnapshotManifest → Result RevisionError AtlasProjectionBundle
  unfolding build
  rebuild w version m = build w version false m

  unfoldable pub rebuild_pending :
      World → ℕ → SnapshotManifest → Result RevisionError AtlasProjectionBundle
  unfolding build
  rebuild_pending w version m = build w version true m

  rebuild_all :
      World → ℕ → List SnapshotManifest → Result RevisionError (List AtlasProjectionBundle)
  unfolding rebuild
  rebuild_all w version [] = ok []
  rebuild_all w version (m ∷ ms) = do
    b ← rebuild w version m
    bs ← rebuild_all w version ms
    ok (b ∷ bs)

  unfoldable pub rebuild_inventory :
      World → ℕ → String → Result RevisionError (List AtlasProjectionBundle)
  unfolding rebuild_all inventory_leb
  rebuild_inventory w version campaign = do
    ms ← campaign_inventory sha256 dumps_files campaign w.store
    rebuild_all w version (sort inventory_leb ms)
