-- ===== src/Atlas/Rebuild/Projected.antt =====
-- What a bundle that `build` returns has.
use warden_drydock.Prelude.{
  ℕ, ◌+◌, sym, ap, ◌∙◌, String, ◌≡◌, refl, Bool, true, List, [], ◌∷◌, Option, none, some, ◌↔◌, All,
  Mem, string_eq,
}
use warden_drydock.Prelude.Sets.{distinct}
use warden_drydock.Prelude.Result.{Result, ok, require, bind-eq-ok}
use warden_drydock.Campaign.Json.{Json}
use warden_drydock.Revisions.Models.{
  RevisionError, value_error, FileHash, SnapshotManifest, manifest_beq_iff,
}
use warden_drydock.Revisions.Repository.{Repository}
use warden_drydock.Revisions.Store.{key_of, verify}
use warden_drydock.Revisions.Service.{World}
use warden_drydock.Atlas.Models.{
  AtlasRecord, AtlasHistoryEntry, AtlasHistoryChange, AtlasProjectionBundle, is_valid_entry,
}
use warden_drydock.Atlas.Lineage.{lineage_through, ends_with_target}
use warden_drydock.Atlas.Lineage.Linear.{IsLine, lineage_through-IsLine}
use warden_drydock.Atlas.Records.{Parsed, ids_of}
use warden_drydock.Atlas.Records.Bound.{IsBound, parse_records-IsBound}
use warden_drydock.Atlas.History.{by_record, history_changes}
use warden_drydock.Prelude.Dict.{lookup}
use warden_drydock.Atlas.History.Differences.{Difference}
use warden_drydock.Atlas.History.Reported.{history_changes-Difference}
use warden_drydock.Atlas.Rebuild.{
  before_last, check_provenance, is_valid_bundle, tree_of, parsed_at, parent_records, entry_of,
  bundle_of, build,
}

abbrev pub parent_of : Option SnapshotManifest → Option String
parent_of none = none
parent_of (some m) = some m.revision_id

module _ (allow : Bool) (target : SnapshotManifest) (r : Repository) where
  -- In a line of two or more, the parent of the last is the one before.
  later_parent :
      (n : ℕ) (parent : Option String) (m o : SnapshotManifest) (ms : List SnapshotManifest)
      → IsLine allow target r n parent (m ∷ o ∷ ms)
      → ends_with_target target (m ∷ o ∷ ms) ≡ true
      → target.parent_revision ≡ parent_of (before_last (m ∷ o ∷ ms))
  unfolding before_last ends_with_target
  later_parent n parent m o [] (_, _, _, (_, own, _, _)) h =
      ap (λ (x : SnapshotManifest). x.parent_revision) (sym ((manifest_beq_iff o target).0 h)) ∙ own
  later_parent n parent m o (l ∷ ms) (_, _, _, line) h =
      later_parent (n + 1) (some m.revision_id) o l ms line h

  line_parent :
      (n : ℕ) (ms : List SnapshotManifest)
      → IsLine allow target r n none ms
      → ends_with_target target ms ≡ true
      → target.parent_revision ≡ parent_of (before_last ms)
  unfolding before_last ends_with_target
  line_parent n [] line h = absurd (cc (h))
  line_parent n (m ∷ []) line h =
      ap (λ (x : SnapshotManifest). x.parent_revision) (sym ((manifest_beq_iff m target).0 h))
      ∙ line.1
  line_parent n (m ∷ o ∷ ms) line h = later_parent n none m o ms line h

same_bundle :
    (made b : AtlasProjectionBundle) (found : Result RevisionError AtlasProjectionBundle)
    → found ≡ ok made
    → found ≡ ok b
    → b ≡ made
same_bundle made b found e h = cc (e, h)

module _ (sha256 : String → String) (dumps_files : List FileHash → String)
    (dumps : ℕ → String → String → String) (casefold : String → String)
    (decode : String → Option String) (loads : String → Option Json) where
  -- A verified manifest at the end of a line of revisions, the one before it in the line its parent,
  -- distinct records, connections that join them, and the changes against the parent's records.
  abbrev pub IsProjection : World → Bool → SnapshotManifest → AtlasProjectionBundle → Type 0
  IsProjection w allow m b =
      (ls : List SnapshotManifest) × (previous : List AtlasRecord) × (verify sha256 dumps_files
          (key_of m) w.store
        ≡ ok m)
      × IsLine allow m w.repository 1 none ls
      × (ends_with_target m ls ≡ true)
      × (m.parent_revision ≡ parent_of (before_last ls))
      × (parent_records sha256 dumps casefold decode loads w (before_last ls) ≡ ok previous)
      × (distinct (ids_of b.records) ≡ true)
      × All (IsBound (ids_of b.records)) b.edges
      × ((c : AtlasHistoryChange)
          → Mem c b.history_entry.changes
            ↔ Difference m c.record_id (lookup c.record_id (by_record previous []))
                (lookup c.record_id (by_record b.records [])) c)

module _ (sha256 : String → String) (dumps_files : List FileHash → String)
    (dumps : ℕ → String → String → String) (casefold : String → String)
    (decode : String → Option String) (loads : String → Option Json)
    (proposal_provenance : String → String → Option (String × ℕ))
    (digest : SnapshotManifest → Parsed → AtlasHistoryEntry → String) where
  -- A bundle that is built is bound to the manifest, which the store has verified and which ends an
  -- unbroken line of published revisions (or it is pending itself, where that is allowed). Its records
  -- are distinct, each connection joins two of them, and its history holds exactly the differences
  -- between the records of its parent, the revision before it in the line, and its own.
  pub build-IsProjection :
      (w : World) (version : ℕ) (allow : Bool) (m : SnapshotManifest) (b : AtlasProjectionBundle)
      → build sha256 dumps_files dumps casefold decode loads proposal_provenance digest w version
          allow m
        ≡ ok b
      → (b.revision_id ≡ m.revision_id)
        × (b.tree_digest ≡ m.tree_digest)
        × IsProjection sha256 dumps_files dumps casefold decode loads w allow m b
  unfolding build parsed_at entry_of bundle_of
  build-IsProjection w version allow m b h =
      let (ls, e1, h1) = bind-eq-ok (lineage_through sha256 dumps_files w allow m) _ _ h in
      let (p, e2, h2) = bind-eq-ok (parsed_at sha256 dumps casefold decode loads w m) _ _ h1 in
      let (tree, e3, h3) = bind-eq-ok (tree_of w m) _ _ e2 in
      let (previous, e4, h4) =
        bind-eq-ok (parent_records sha256 dumps casefold decode loads w (before_last ls)) _ _ h2 in
      let (proposal, e5, h5) =
        bind-eq-ok (check_provenance (proposal_provenance m.campaign_id m.revision_id)) _ _ h4 in
      let (changes, e6, h6) = bind-eq-ok (history_changes m p.records previous) _ _ h5 in
      let entry = entry_of m changes proposal in
      let (_, e7, h7) = bind-eq-ok (require (is_valid_entry entry) value_error) _ _ h6 in
      let bundle = bundle_of version m p entry (digest m p entry) in
      let (_, e8, h8) =
        bind-eq-ok (require (is_valid_bundle sha256 dumps bundle) value_error) _ _ h7 in
      let q : b ≡ bundle = same_bundle bundle b (ok bundle) refl h8 in
      let (line, once, last, sound) = lineage_through-IsLine sha256 dumps_files w allow m ls e1 in
      let (distinct_ids, bound) =
        parse_records-IsBound sha256 dumps casefold decode loads m tree p h3 in
      let step = line_parent allow m w.repository 1 ls line last in
      rw q (
        refl,
        refl,
        (
          ls,
          previous,
          sound,
          line,
          last,
          step,
          e4,
          distinct_ids,
          bound,
          (λ c. history_changes-Difference m p.records previous changes c e6),
        ),
      )
