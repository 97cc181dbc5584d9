-- ===== src/Atlas/Lineage.antt =====
-- hosted/projections/atlas_rebuild.py: `_lineage_through`, the revisions up to the one projected.
pub mod Linear
use warden_drydock.Prelude.{
  ℕ, ◌+◌, String, Bool, true, false, not, List, [], ◌∷◌, Option, none, some, ◌&&◌, ◌||◌, ◌==◌,
  nat_eq, string_eq, option_eq, leb, any, contains, filter, if◌then◌else◌,
}
use warden_drydock.Prelude.Sort.{sort}
use warden_drydock.Prelude.Text.{str_leb}
use warden_drydock.Prelude.Result.{Result, ok, err, ◌>>=◌, ◌>>◌, require}
use warden_drydock.Revisions.Models.{
  RevisionError, snapshot_lineage, FileHash, SnapshotManifest, manifest_beq, PublicationIntent,
  pending, status_beq,
}
use warden_drydock.Revisions.Repository.{Repository, binds, matching_intents, publication_eligible}
use warden_drydock.Revisions.Store.{verify, campaign_inventory, key_of}
use warden_drydock.Revisions.Service.{World}

-- `key=lambda item: (item.ordinal, item.revision_id)`
unfoldable pub inventory_leb : SnapshotManifest → SnapshotManifest → Bool
inventory_leb m n =
    if m.ordinal == n.ordinal then str_leb m.revision_id n.revision_id else leb m.ordinal n.ordinal

-- The one intent under the token is pending and binds the manifest.
is_pending : List PublicationIntent → SnapshotManifest → Bool
unfolding binds status_beq
is_pending (i ∷ []) m = status_beq i.status pending && binds i m
is_pending _ m = false

unfoldable pub is_projectable : Bool → SnapshotManifest → Repository → SnapshotManifest → Bool
unfolding is_pending manifest_beq publication_eligible matching_intents
is_projectable allow_pending target r m =
    publication_eligible m r
    || (allow_pending
        && manifest_beq m target
        && is_pending (matching_intents m.publication_intent_token r) m)

-- The loop, with the ordinal and the parent that it expects, and the revisions that it has seen.
unfoldable pub check_lineage :
    Bool
    → SnapshotManifest
    → Repository
    → ℕ
    → Option String
    → List String
    → List SnapshotManifest
    → Result RevisionError (Unit {0})
unfolding is_projectable
check_lineage allow target r n parent seen [] = ok tt
check_lineage allow target r n parent seen (m ∷ ms) =
    let rest =
      check_lineage allow target r (n + 1) (some m.revision_id) (m.revision_id ∷ seen) ms in
    if m.ordinal == n
      && m.parent_revision == parent
      && not (contains m.revision_id seen)
      && is_projectable allow target r m
    then rest
    else err snapshot_lineage

-- `through_target[-1] == target`
unfoldable pub ends_with_target : SnapshotManifest → List SnapshotManifest → Bool
unfolding manifest_beq
ends_with_target target [] = false
ends_with_target target (m ∷ []) = manifest_beq m target
ends_with_target target (m ∷ n ∷ ms) = ends_with_target target (n ∷ ms)

unfoldable pub through : SnapshotManifest → List SnapshotManifest → List SnapshotManifest
unfolding inventory_leb
through target ms =
    filter (λ (m : SnapshotManifest). leb m.ordinal target.ordinal) (sort inventory_leb ms)

unfoldable pub check_through :
    Bool
    → SnapshotManifest
    → Repository
    → List SnapshotManifest
    → Result RevisionError (List SnapshotManifest)
unfolding check_lineage ends_with_target manifest_beq
check_through allow target r ms = do
  require (any (λ (m : SnapshotManifest). manifest_beq m target) ms) snapshot_lineage
  check_lineage allow target r 1 none [] ms
  require (ends_with_target target ms) snapshot_lineage
  ok ms

-- `_lineage_through`
unfoldable pub lineage_through :
    (String → String)
    → (List FileHash → String)
    → World
    → Bool
    → SnapshotManifest
    → Result RevisionError (List SnapshotManifest)
unfolding through check_through manifest_beq
lineage_through sha256 dumps w allow target = do
  found ← verify sha256 dumps (key_of target) w.store
  require (manifest_beq found target) snapshot_lineage
  inventory ← campaign_inventory sha256 dumps target.campaign_id w.store
  check_through allow target w.repository (through target inventory)
