-- ===== src/Revisions/Store.antt =====
-- hosted/revisions/store.py: `FileSnapshotStore`. The two directories `snapshots` and `quarantine`
-- are dictionaries from (tree digest, campaign, revision); a raise leaves both as they were.
pub mod Laws
pub mod Withdrawn
use warden_drydock.Prelude.{
  String, Bool, true, false, not, Option, none, some, List, [], ◌∷◌, ◌&&◌, ◌||◌, ◌==◌, string_eq,
  pair_eq, list_eq, filter, if◌then◌else◌,
}
use warden_drydock.Prelude.Dict.{Dict, lookup, insert, erase, keys}
use warden_drydock.Prelude.Text.{codes, codes_leb, str_leb}
use warden_drydock.Prelude.Sort.{sort}
use warden_drydock.Prelude.Result.{Result, ok, err, ◌>>=◌, ◌>>◌, require, or_raise}
use warden_drydock.Revisions.Models.{
  RevisionError, snapshot_integrity, file_not_found, FileHash, SnapshotManifest, manifest_beq,
  file_eq,
}
use warden_drydock.Revisions.Canonical.{SourceTree, canonicalize_tree}

abbrev pub Key : Type 0
Key = String × (String × String)

pub record Stored : Type 0 where
  pub manifest : SnapshotManifest
  pub tree : SourceTree

pub record Store : Type 0 where
  pub snapshots : Dict Key Stored
  pub quarantine : Dict Key String

abbrev pub no_snapshots : Store
no_snapshots = record { snapshots = []; quarantine = [] }

abbrev pub key_of : SnapshotManifest → Key
key_of m = (m.tree_digest, (m.campaign_id, m.revision_id))

-- The order in which the nested sorted `iterdir` loops visit the snapshots.
unfoldable pub key_leb : Key → Key → Bool
key_leb (d, (c, r)) (d', (c', r')) =
    if not (d == d') then str_leb d d' else if not (c == c') then str_leb c c' else str_leb r r'

is_found : Option String → Bool
is_found none = false
is_found (some _) = true

-- `quarantined.exists()`
unfoldable pub has_tombstone : Key → Store → Bool
unfolding is_found
has_tombstone k s = is_found (lookup k s.quarantine)

module _ (sha256 : String → String) (dumps : List FileHash → String) where
  -- The tree and the digests agree with the manifest.
  unfoldable pub check_tree : SourceTree → SnapshotManifest → Result RevisionError (Unit {0})
  check_tree t m = do
    found ← canonicalize_tree sha256 dumps t
    require (found.0 == m.files && found.1 == m.tree_digest) snapshot_integrity

  unfoldable pub verify_stored : Key → Stored → Result RevisionError SnapshotManifest
  unfolding check_tree
  verify_stored (digest, (campaign, revision)) x = do
    require (x.manifest.campaign_id == campaign && x.manifest.revision_id == revision)
        snapshot_integrity
    check_tree x.tree x.manifest
    require (x.manifest.tree_digest == digest) snapshot_integrity
    ok x.manifest

  unfoldable pub verify : Key → Store → Result RevisionError SnapshotManifest
  unfolding verify_stored
  verify k s = do x ← or_raise (lookup k s.snapshots) file_not_found; verify_stored k x

  -- The branch where the target does not exist: `copied` is what `copytree` has written.
  unfoldable pub put_copy : SnapshotManifest → SourceTree → Store → Result RevisionError Store
  unfolding check_tree
  put_copy m copied s = do
    check_tree copied m
    ok (record s {
      snapshots = insert (key_of m) (record { manifest = m; tree = copied }) s.snapshots;
    })

  unfoldable pub put_beside :
      SnapshotManifest → SourceTree → Option Stored → Store → Result RevisionError Store
  unfolding put_copy verify
  put_beside m copied none s = put_copy m copied s
  put_beside m copied (some _) s = do
    existing ← verify (key_of m) s
    require (manifest_beq existing m) snapshot_integrity
    ok s

  unfoldable pub put_if_absent :
      SourceTree → SourceTree → SnapshotManifest → Store → Result RevisionError Store
  unfolding put_beside has_tombstone
  put_if_absent source copied m s = do
    check_tree source m
    require (not (has_tombstone (key_of m) s)) snapshot_integrity
    put_beside m copied (lookup (key_of m) s.snapshots) s

  unfoldable pub verify_all : List Key → Store → Result RevisionError (List SnapshotManifest)
  unfolding verify
  verify_all [] s = ok []
  verify_all (k ∷ ks) s = let rest = verify_all ks s in do m ← verify k s; ms ← rest; ok (m ∷ ms)

  unfoldable pub inventory : Store → Result RevisionError (List SnapshotManifest)
  unfolding verify_all key_leb
  inventory s = verify_all (sort key_leb (keys s.snapshots)) s

  unfoldable pub campaign_inventory : String → Store → Result RevisionError (List SnapshotManifest)
  unfolding verify_all key_leb
  campaign_inventory campaign s =
      verify_all (filter (λ (k : Key). k.1.0 == campaign) (sort key_leb (keys s.snapshots))) s

  unfoldable pub discard_unpublished_snapshot :
      SnapshotManifest → Store → Result RevisionError Store
  unfolding verify
  discard_unpublished_snapshot m s = do
    existing ← verify (key_of m) s
    require (manifest_beq existing m) snapshot_integrity
    ok (record s { snapshots = erase (key_of m) s.snapshots })

-- A snapshot that is there goes to the quarantine, or is removed where a tombstone stands already.
quarantine_found : Key → String → Option Stored → Store → Store
quarantine_found k reason none s = s
quarantine_found k reason (some _) s =
    if has_tombstone k s
    then record s { snapshots = erase k s.snapshots }
    else record { snapshots = erase k s.snapshots; quarantine = insert k reason s.quarantine }

unfoldable pub quarantine_snapshot : Key → String → Store → Store
unfolding quarantine_found
quarantine_snapshot k reason s = quarantine_found k reason (lookup k s.snapshots) s
