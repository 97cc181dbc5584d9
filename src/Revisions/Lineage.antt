-- ===== src/Revisions/Lineage.antt =====
-- hosted/revisions/service.py: `verify_linear_inventory`.
pub mod Parents
mod Full
pub mod Linear
use warden_drydock.Prelude.{
  ℕ, ◌+◌, String, ◌≡◌, refl, ◌∙◌, sym, ap, Bool, ◌&&◌, Option, none, some, List, [], ◌∷◌, ◌++◌,
  ◌==◌, leb, all, contains, map, filter, Mem, Mem-append, Mem-append_left, Mem-append_right,
  mem-filter, inl, inr, Bool-cases, &&-true, arith, nat_eq, string_eq, option_eq, option_beq_iff,
  nat_beq_iff, if◌then◌else◌,
}
use mathlib.Core.Path.{subst}
use text.Mathlib.TextEquality.{eq_iff}
use warden_drydock.Prelude.Sort.{sort, mem-sort}
use warden_drydock.Prelude.Text.{str_leb}
use warden_drydock.Prelude.Result.{Result, ok, err, ◌>>=◌, bind-eq-ok}
use warden_drydock.Revisions.Models.{
  RevisionError, snapshot_lineage, publication_intent, FileHash, SnapshotManifest,
}
use warden_drydock.Revisions.Repository.{Repository, publication_eligible}
use warden_drydock.Revisions.Store.{inventory}
use warden_drydock.Revisions.Service.{World}

unfoldable pub dedupe : List String → List String
dedupe [] = []
dedupe (c ∷ cs) = let rest = dedupe cs in if contains c cs then rest else c ∷ rest

-- `sorted(by_campaign)`
unfoldable pub campaigns : List SnapshotManifest → List String
unfolding dedupe
campaigns ms = sort str_leb (dedupe (map (λ (m : SnapshotManifest). m.campaign_id) ms))

unfoldable pub ordinal_leb : SnapshotManifest → SnapshotManifest → Bool
ordinal_leb m n = leb m.ordinal n.ordinal

-- `sorted(by_campaign[campaign], key=...)`
unfoldable pub ordered : String → List SnapshotManifest → List SnapshotManifest
unfolding ordinal_leb
ordered campaign ms =
    sort ordinal_leb (filter (λ (m : SnapshotManifest). m.campaign_id == campaign) ms)

-- The inner loop, with the ordinal and the parent that it expects.
unfoldable pub check_line :
    ℕ → Option String → List SnapshotManifest → Result RevisionError (List SnapshotManifest)
check_line n parent [] = ok []
check_line n parent (m ∷ ms) =
    let rest = check_line (n + 1) (some m.revision_id) ms in
    if m.ordinal == n && m.parent_revision == parent
    then (do vs ← rest; ok (m ∷ vs))
    else err snapshot_lineage

-- The outer loop.
unfoldable pub check_lines :
    List String → List SnapshotManifest → Result RevisionError (List SnapshotManifest)
unfolding check_line ordered
check_lines [] ms = ok []
check_lines (c ∷ cs) ms =
    let rest = check_lines cs ms in
    do line ← check_line 1 none (ordered c ms); others ← rest; ok (line ++ others)

unfoldable pub check_inventory :
    Repository → List SnapshotManifest → Result RevisionError (List SnapshotManifest)
unfolding campaigns check_lines publication_eligible
check_inventory r ms =
    if all (λ (m : SnapshotManifest). publication_eligible m r) ms
    then check_lines (campaigns ms) ms
    else err publication_intent

unfoldable pub verify_linear_inventory :
    (String → String)
    → (List FileHash → String)
    → World
    → Result RevisionError (List SnapshotManifest)
unfolding check_inventory
verify_linear_inventory sha256 dumps w = do
  ms ← inventory sha256 dumps w.store
  check_inventory w.repository ms
