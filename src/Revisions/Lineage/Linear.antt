-- ===== src/Revisions/Lineage/Linear.antt =====
-- What an inventory that verifies has.
use warden_drydock.Prelude.{
  String, ◌≡◌, refl, ◌∙◌, sym, ap, ◌&&◌, none, some, List, [], ◌∷◌, ◌==◌, all, Mem, All, true,
  pair_eq, inl, inr, Bool-cases, nat_eq, string_eq, option_eq,
}
use mathlib.Core.Path.{subst}
use warden_drydock.Prelude.Sort.{sort, mem-sort}
use warden_drydock.Prelude.Result.{ok, bind-eq-ok}
use warden_drydock.Revisions.Models.{FileHash, SnapshotManifest}
use warden_drydock.Revisions.Repository.{publication_eligible}
use warden_drydock.Prelude.Dict.{lookup, keys}
use warden_drydock.Prelude.Result.{require}
use warden_drydock.Revisions.Models.{snapshot_integrity}
use warden_drydock.Revisions.Store.{
  Key, Stored, inventory, verify, verify_stored, verify_all, key_leb, check_tree,
}
use warden_drydock.Revisions.Lineage.{
  campaigns, check_lines, check_inventory, verify_linear_inventory,
}
use warden_drydock.Revisions.Service.{World}
use warden_drydock.Revisions.Lineage.Parents.{ok_same, err≢ok, HasParent, lines-HasParent}
use warden_drydock.Revisions.Lineage.Full.{
  All-of, Mem-all, check_lines-full, check_lines-only, Mem-campaigns, Mem-keys,
}

module _ (sha256 : String → String) (dumps : List FileHash → String) (w : World) where
  -- The verified inventory has what is under each key, and nothing else.
  verify_all-full :
      (ks : List Key) (ms : List SnapshotManifest) (k : Key)
      → verify_all sha256 dumps ks w.store ≡ ok ms
      → Mem k ks
      → (m : SnapshotManifest) × (verify sha256 dumps k w.store ≡ ok m) × Mem m ms
  unfolding verify_all
  verify_all-full [] ms k e i = absurd i
  verify_all-full (j ∷ ks) ms k e i =
      let (m, found, rest) = bind-eq-ok (verify sha256 dumps j w.store) _ ms e in
      let (others, more, same) = bind-eq-ok (verify_all sha256 dumps ks w.store) _ ms rest in
      elim i [
        | inl at ↦ (m, rw at found, subst (Mem m) (ok_same same) (inl refl))
        | inr later ↦
            let (n, there, j') = verify_all-full ks others k more later in
            (n, there, subst (Mem n) (ok_same same) (inr j'))
      ]

  verify_all-only :
      (ks : List Key) (ms : List SnapshotManifest) (m : SnapshotManifest)
      → verify_all sha256 dumps ks w.store ≡ ok ms
      → Mem m ms
      → (k : Key) × (verify sha256 dumps k w.store ≡ ok m)
  unfolding verify_all
  verify_all-only [] ms m e i = let gone : ⊥ = subst (Mem m) (sym (ok_same e)) i in absurd gone
  verify_all-only (j ∷ ks) ms m e i =
      let (n, found, rest) = bind-eq-ok (verify sha256 dumps j w.store) _ ms e in
      let (others, more, same) = bind-eq-ok (verify_all sha256 dumps ks w.store) _ ms rest in
      let i' : Mem m (n ∷ others) = subst (Mem m) (sym (ok_same same)) i in
      elim i' [
        | inl at ↦ (j, found ∙ ap ok (sym at))
        | inr later ↦ verify_all-only ks others m more later
      ]

  verified_manifest :
      (k : Key) (x : Stored) (m : SnapshotManifest)
      → lookup k w.store.snapshots ≡ some x
      → verify sha256 dumps k w.store ≡ ok m
      → m ≡ x.manifest
  unfolding verify verify_stored
  verified_manifest (digest, (campaign, revision)) x m e h =
      let h' : verify_stored sha256 dumps (digest, (campaign, revision)) x ≡ ok m = rw e at h in
      let (_, _, h1) =
        bind-eq-ok
          (require (x.manifest.campaign_id == campaign && x.manifest.revision_id == revision)
            snapshot_integrity)
          _ m h' in
      let (_, _, h2) = bind-eq-ok (check_tree sha256 dumps x.tree x.manifest) _ m h1 in
      let (_, _, h3) =
        bind-eq-ok (require (x.manifest.tree_digest == digest) snapshot_integrity) _ m h2 in
      cc (h3)

  -- The manifest of a stored snapshot that verifies, its publication finished and its parent before it.
  abbrev pub InLine : List SnapshotManifest → SnapshotManifest → Type 0
  InLine vs m =
      ((k : Key) × (verify sha256 dumps k w.store ≡ ok m))
      × (publication_eligible m w.repository ≡ true)
      × HasParent 1 none m vs

  checked :
      (ms vs : List SnapshotManifest) (m : SnapshotManifest)
      → check_inventory w.repository ms ≡ ok vs
      → Mem m ms
      → Mem m vs × (publication_eligible m w.repository ≡ true) × HasParent 1 none m vs
  unfolding check_inventory
  checked ms vs m e i =
      elim (Bool-cases (all (λ (x : SnapshotManifest). publication_eligible x w.repository) ms)) [
        | inl eligible ↦
            let lines : check_lines (campaigns ms) ms ≡ ok vs = rw eligible at e in
            let here = check_lines-full (campaigns ms) ms vs m lines i (Mem-campaigns m ms i) in
            (
              here,
              Mem-all (λ (x : SnapshotManifest). publication_eligible x w.repository) ms m eligible
                  i,
              lines-HasParent (campaigns ms) ms vs m lines here,
            )
        | inr other ↦ absurd (err≢ok (rw other at e))
      ]

  checked_only :
      (ms vs : List SnapshotManifest) (m : SnapshotManifest)
      → check_inventory w.repository ms ≡ ok vs
      → Mem m vs
      → Mem m ms
  unfolding check_inventory
  checked_only ms vs m e i =
      elim (Bool-cases (all (λ (x : SnapshotManifest). publication_eligible x w.repository) ms)) [
        | inl eligible ↦ check_lines-only (campaigns ms) ms vs m (rw eligible at e) i
        | inr other ↦ absurd (err≢ok (rw other at e))
      ]

  -- When the inventory verifies, the manifest of every snapshot that the store has is in it, and each
  -- manifest in it is one that the store verifies and whose publication is finished, and is the first of
  -- its campaign, with the ordinal 1 and no parent, or has its parent in the inventory too, of the same
  -- campaign and with the ordinal just below.
  pub verify_linear_inventory-InLine :
      (vs : List SnapshotManifest) (k : Key) (x : Stored)
      → verify_linear_inventory sha256 dumps w ≡ ok vs
      → lookup k w.store.snapshots ≡ some x
      → Mem x.manifest vs × All (InLine vs) vs
  unfolding verify_linear_inventory inventory
  verify_linear_inventory-InLine vs k x e found =
      let (ms, all_verified, lines) = bind-eq-ok (inventory sha256 dumps w.store) _ vs e in
      let ks = sort key_leb (keys w.store.snapshots) in
      let (m, is, i) =
        verify_all-full ks ms k all_verified ((mem-sort key_leb k _).1 (Mem-keys k x _ found)) in
      (
        subst (λ (n : SnapshotManifest). Mem n vs) (verified_manifest k x m found is)
            (checked ms vs m lines i).0,
        All-of (InLine vs) vs (λ n here.
            let in_store = checked_only ms vs n lines here in
            let (_, eligible, parent) = checked ms vs n lines in_store in
            (verify_all-only ks ms n all_verified in_store, eligible, parent)),
      )
