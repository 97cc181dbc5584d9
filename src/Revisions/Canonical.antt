-- ===== src/Revisions/Canonical.antt =====
-- hosted/revisions/canonical.py: `canonicalize_tree`. A directory is the list of its entries in the
-- order in which `rglob` meets them. `sha256` (hashlib) and `dumps` (the JSON text of the sorted
-- file list) are parameters. The JSON form of a manifest is not modelled: the store keeps it
-- decoded.
use warden_drydock.Prelude.{String, Bool, not, List, [], ◌∷◌, ◌++◌, ◌==◌, list_eq, true, false}
use warden_drydock.Prelude.Sort.{sort}
use warden_drydock.Prelude.Result.{Result, ok, err, ◌>>=◌, ◌>>◌, require}
use warden_drydock.Revisions.Models.{RevisionError, snapshot_integrity, FileHash, file_eq}
use warden_drydock.Revisions.Checks.{check_path, file_hash, file_leb}

pub data EntryKind : Type 0 where
  symbolic_link directory special : EntryKind
  regular : String → EntryKind

pub record SourceEntry : Type 0 where
  pub path : String
  pub kind : EntryKind

pub record SourceTree : Type 0 where
  pub root_is_link : Bool
  pub entries : List SourceEntry

is_link : EntryKind → Bool
is_link symbolic_link = true
is_link _ = false

-- `_safe_relative_path`
unfoldable pub safe_relative_path : SourceEntry → Result RevisionError (Unit {0})
unfolding is_link check_path
safe_relative_path x = do
  require (not (is_link x.kind)) snapshot_integrity
  check_path x.path snapshot_integrity

module _ (sha256 : String → String) where
  -- A directory gives no file, and a regular file one.
  hash_entry : String → EntryKind → Result RevisionError (List FileHash)
  unfolding file_hash
  hash_entry path directory = ok []
  hash_entry path (regular bytes) = do f ← file_hash path (sha256 bytes); ok (f ∷ [])
  hash_entry path _ = err snapshot_integrity

  unfoldable pub collect : List SourceEntry → Result RevisionError (List FileHash)
  unfolding safe_relative_path hash_entry
  collect [] = ok []
  collect (x ∷ xs) =
      let rest = collect xs in
      do safe_relative_path x; here ← hash_entry x.path x.kind; files ← rest; ok (here ++ files)

  unfoldable pub canonicalize_tree :
      (List FileHash → String) → SourceTree → Result RevisionError (List FileHash × String)
  unfolding collect file_leb
  canonicalize_tree dumps t = do
    require (not t.root_is_link) snapshot_integrity
    found ← collect t.entries
    let files = sort file_leb found
    require (not (files == [])) snapshot_integrity
    ok (files, sha256 (dumps files))
