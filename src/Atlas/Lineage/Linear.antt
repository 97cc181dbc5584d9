-- ===== src/Atlas/Lineage/Linear.antt =====
-- What the lineage of a projected revision has.
use package.text.Mathlib.TextEquality.{eq_iff}
use warden_drydock.Prelude.{
  ℕ, ◌+◌, String, ◌≡◌, refl, ◌∙◌, ap, Bool, true, false, not, List, [], ◌∷◌, Option, none, some,
  inl, inr, ◌&&◌, ◌==◌, nat_eq, string_eq, option_eq, option_beq_iff, contains, map, All, All-map,
  Bool-cases, nat_beq_iff, arith, any,
}
use warden_drydock.Prelude.Sets.{distinct}
use warden_drydock.Prelude.Result.{ok, err, require, bind-eq-ok, require-eq-ok}
use warden_drydock.Revisions.Models.{
  snapshot_lineage, FileHash, SnapshotManifest, manifest_beq, manifest_beq_iff,
}
use warden_drydock.Revisions.Repository.{Repository}
use warden_drydock.Revisions.Store.{verify, campaign_inventory, key_of}
use warden_drydock.Revisions.Service.{World}
use warden_drydock.Atlas.Lineage.{
  check_lineage, check_through, is_projectable, ends_with_target, through, lineage_through,
}

abbrev pub revisions_of : List SnapshotManifest → List String
revisions_of ms = map (λ (m : SnapshotManifest). m.revision_id) ms

-- Ordinals from `n` on, each with the one before as its parent, and all of them projectable.
abbrev pub IsLine :
    Bool → SnapshotManifest → Repository → ℕ → Option String → List SnapshotManifest → Type 0
IsLine allow target r n parent [] = Unit
IsLine allow target r n parent (m ∷ ms) =
    (m.ordinal ≡ n)
    × (m.parent_revision ≡ parent)
    × (is_projectable allow target r m ≡ true)
    × IsLine allow target r (n + 1) (some m.revision_id) ms

absent :
    (x : String) (seen vs : List String)
    → All (λ v. contains v (x ∷ seen) ≡ false) vs
    → contains x vs ≡ false
absent x seen [] h = refl
absent x seen (v ∷ vs) h = ground (arith, h.0, absent x seen vs h.1, eq_iff x v, eq_iff v x)

module _ (allow : Bool) (target : SnapshotManifest) (r : Repository) where
  -- The conditions on the manifest in hand hold, and the loop goes on.
  one_checks :
      (n : ℕ) (parent : Option String) (seen : List String) (m : SnapshotManifest)
      (ms : List SnapshotManifest)
      → check_lineage allow target r n parent seen (m ∷ ms) ≡ ok tt
      → ((m.ordinal == n) ≡ true)
        × ((m.parent_revision == parent) ≡ true)
        × (contains m.revision_id seen ≡ false)
        × (is_projectable allow target r m ≡ true)
        × (check_lineage allow target r (n + 1) (some m.revision_id) (m.revision_id ∷ seen) ms
            ≡ ok tt)
  unfolding check_lineage
  one_checks n parent seen m ms h =
      elim (Bool-cases (
        m.ordinal == n
        && m.parent_revision == parent
        && not (contains m.revision_id seen)
        && is_projectable allow target r m)) [
          | inl e ↦ (
            ground (arith, e),
            ground (arith, e),
            ground (arith, e),
            ground (arith, e),
            rw e at h,
          )
          | inr e ↦ let h' : err snapshot_lineage ≡ ok tt = rw e at h in absurd (cc (h'))
        ]

  check_lineage-IsLine :
      (n : ℕ) (parent : Option String) (seen : List String) (ms : List SnapshotManifest)
      → check_lineage allow target r n parent seen ms ≡ ok tt
      → IsLine allow target r n parent ms
        × All (λ v. contains v seen ≡ false) (revisions_of ms)
        × (distinct (revisions_of ms) ≡ true)
  unfolding distinct
  check_lineage-IsLine n parent seen [] h = (tt, tt, refl)
  check_lineage-IsLine n parent seen (m ∷ ms) h =
      let (o, p, new, ready, rest) = one_checks n parent seen m ms h in
      let (line, unseen, once) =
        check_lineage-IsLine (n + 1) (some m.revision_id) (m.revision_id ∷ seen) ms rest in
      (
        ((nat_beq_iff m.ordinal n).0 o, (option_beq_iff m.parent_revision parent).0 p, ready, line),
        (new, All-map (λ v k. ground (arith, k)) (revisions_of ms) unseen),
        ground (arith, once, absent m.revision_id seen (revisions_of ms) unseen),
      )

  check_through-IsLine :
      (ms vs : List SnapshotManifest)
      → check_through allow target r ms ≡ ok vs
      → (vs ≡ ms)
        × IsLine allow target r 1 none ms
        × (distinct (revisions_of ms) ≡ true)
        × (ends_with_target target ms ≡ true)
  unfolding check_through
  check_through-IsLine ms vs h =
      let (_, e1, h1) =
        bind-eq-ok
          (require (any (λ (m : SnapshotManifest). manifest_beq m target) ms) snapshot_lineage) _ _
          h in
      let (_, e2, h2) = bind-eq-ok (check_lineage allow target r 1 none [] ms) _ _ h1 in
      let (_, e3, h3) = bind-eq-ok (require (ends_with_target target ms) snapshot_lineage) _ _ h2 in
      let (line, _, once) = check_lineage-IsLine 1 none [] ms e2 in
      (cc (h3), line, once, require-eq-ok (ends_with_target target ms) _ e3)

-- The lineage of a projected revision counts from 1 without a gap, each revision has the one before as
-- its parent and stands once, each has a finalized intent that binds it (or a pending one, if it is the
-- target and that is allowed), and the last one is the target, which the store has verified.
pub lineage_through-IsLine :
    (sha256 : String → String) (dumps : List FileHash → String) (w : World) (allow : Bool)
    (target : SnapshotManifest) (ms : List SnapshotManifest)
    → lineage_through sha256 dumps w allow target ≡ ok ms
    → IsLine allow target w.repository 1 none ms
      × (distinct (revisions_of ms) ≡ true)
      × (ends_with_target target ms ≡ true)
      × (verify sha256 dumps (key_of target) w.store ≡ ok target)
unfolding lineage_through
lineage_through-IsLine sha256 dumps w allow target ms h =
    let (found, e1, h1) = bind-eq-ok (verify sha256 dumps (key_of target) w.store) _ _ h in
    let (_, e2, h2) = bind-eq-ok (require (manifest_beq found target) snapshot_lineage) _ _ h1 in
    let (inventory, e3, h3) =
      bind-eq-ok (campaign_inventory sha256 dumps target.campaign_id w.store) _ _ h2 in
    let (q, line, once, last) =
      check_through-IsLine allow target w.repository (through target inventory) ms h3 in
    let same : found ≡ target =
      (manifest_beq_iff found target).0 (require-eq-ok (manifest_beq found target) _ e2) in
    (rw q line, rw q once, rw q last, e1 ∙ ap ok same)
