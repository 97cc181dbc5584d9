-- ===== src/Revisions/Store/Laws.antt =====
-- The quarantine: what it hides stays hidden.
use warden_drydock.Prelude.{
  String, ◌≡◌, ◌≢◌, ◌∙◌, ◌⊎◌, sym, Bool, true, false, not, Option, none, some, List, inl, inr,
  arith, Bool-cases, Option-cases, ◌==◌, string_eq, pair_eq, beq_self, if◌then◌else◌, pair_beq_iff,
}
use mathlib.Core.Path.{subst, subst₂}
use mathlib.Core.Bool.{false≢true}
use mathlib.Core.Option.{some-injective}
use warden_drydock.Prelude.Dict.{Dict, lookup, insert, erase, lookup-insert, lookup-erase}
use warden_drydock.Prelude.Result.{Result, ok, require, bind-eq-ok, require-eq-ok}
use warden_drydock.Revisions.Models.{
  RevisionError, snapshot_integrity, manifest_beq, FileHash, SnapshotManifest,
}
use warden_drydock.Revisions.Canonical.{SourceTree}
use warden_drydock.Revisions.Store.{
  Key, Stored, Store, key_of, has_tombstone, is_found, quarantine_found, quarantine_snapshot,
  put_if_absent, put_beside, put_copy, verify, verify_stored, check_tree,
}

-- A snapshot that has been put in quarantine is no longer among the snapshots.
pub lookup-quarantine_snapshot :
    (k : Key) (reason : String) (s : Store)
    → lookup k (quarantine_snapshot k reason s).snapshots ≡ none
unfolding quarantine_snapshot
lookup-quarantine_snapshot k reason s = elim (Option-cases (lookup k s.snapshots)) [
  | inl absent ↦ rw (absent, quarantine_found) absent
  | inr (x, found) ↦ rw (found, quarantine_found) (gone (has_tombstone k s))
]
  where
    erased : lookup k (erase k s.snapshots) ≡ none
    erased = ground (arith, lookup-erase k k s.snapshots, pair_beq_iff k k)

    gone :
        (b : Bool)
        → lookup k
            (if b then record s { snapshots = erase k s.snapshots } else record {
              snapshots = erase k s.snapshots;
              quarantine = insert k reason s.quarantine;
            }).snapshots
          ≡ none
    gone true = erased
    gone false = erased

-- A snapshot that was there and is put in quarantine leaves a tombstone.
pub quarantine_snapshot-tombstone :
    (k : Key) (reason : String) (s : Store) (x : Stored)
    → lookup k s.snapshots ≡ some x
    → has_tombstone k (quarantine_snapshot k reason s) ≡ true
unfolding quarantine_snapshot has_tombstone
quarantine_snapshot-tombstone k reason s x e = elim (Bool-cases (has_tombstone k s)) [
  | inl stands ↦ rw (e, quarantine_found) (rw stands stands)
  | inr absent ↦
      rw (e, quarantine_found) (rw absent (rw (lookup-insert k k reason s.quarantine, beq_self k)))
]

module _ (sha256 : String → String) (dumps : List FileHash → String) where
  -- Every snapshot passes its verification, and none stands beside a tombstone.
  pub record IsIntact (s : Store) : Type 0 where
    pub verified :
        (k : Key) (x : Stored)
        → lookup k s.snapshots ≡ some x
        → verify_stored sha256 dumps k x ≡ ok x.manifest
    pub apart : (k : Key) → has_tombstone k s ≡ true → lookup k s.snapshots ≡ none

  verify_stored-new :
      (m : SnapshotManifest) (t : SourceTree)
      → check_tree sha256 dumps t m ≡ ok tt
      → verify_stored sha256 dumps (key_of m) (record { manifest = m; tree = t }) ≡ ok m
  unfolding verify_stored
  verify_stored-new m t e =
      rw (e, beq_self m.campaign_id, beq_self m.revision_id, beq_self m.tree_digest)

  ok-injective : {A : Type 0} {a b : A} → ◌≡◌ {A = Result RevisionError A} (ok a) (ok b) → a ≡ b
  ok-injective e = cc

  put_new-IsIntact :
      (m : SnapshotManifest) (copied : SourceTree) (s s' : Store)
      → has_tombstone (key_of m) s ≡ false
      → check_tree sha256 dumps copied m ≡ ok tt
      → ◌≡◌ {A = Result RevisionError Store}
          (ok (record s {
            snapshots = insert (key_of m) (record { manifest = m; tree = copied }) s.snapshots;
          }))
          (ok s')
      → IsIntact s
      → IsIntact s'
  unfolding has_tombstone
  put_new-IsIntact m copied s s' free checked stored h =
      subst IsIntact (ok-injective stored) (record {
        verified = λ k x e. elim (Bool-cases (key_of m == k)) [
          | inl same ↦
              let k_is : key_of m ≡ k = (pair_beq_iff (key_of m) k).0 same in
              let x_is : record { manifest = m; tree = copied } ≡ x =
                some-injective _ _ (sym (lookup-insert (key_of m) k _ s.snapshots ∙ rw same) ∙ e) in
              subst₂ (λ k' (x' : Stored). verify_stored sha256 dumps k' x' ≡ ok x'.manifest) k_is
                x_is (verify_stored-new m copied checked)
          | inr other ↦
              h.verified k x (sym (lookup-insert (key_of m) k _ s.snapshots ∙ rw other) ∙ e)
        ];
        apart = λ k t. elim (Bool-cases (key_of m == k)) [
          | inl same ↦
              let k_is : key_of m ≡ k = (pair_beq_iff (key_of m) k).0 same in
              absurd (false≢true (sym free ∙ rw k_is t))
          | inr other ↦ lookup-insert (key_of m) k _ s.snapshots ∙ rw other (h.apart k t)
        ];
      })

  put_copy-IsIntact :
      (m : SnapshotManifest) (copied : SourceTree) (s s' : Store)
      → has_tombstone (key_of m) s ≡ false
      → put_copy sha256 dumps m copied s ≡ ok s'
      → IsIntact s
      → IsIntact s'
  unfolding put_copy
  put_copy-IsIntact m copied s s' free e h =
      let (u, checked, stored) = bind-eq-ok (check_tree sha256 dumps copied m) _ s' e in
      put_new-IsIntact m copied s s' free checked stored h

  put_absent-IsIntact :
      (m : SnapshotManifest) (copied : SourceTree) (o : Option Stored) (s s' : Store)
      → has_tombstone (key_of m) s ≡ false
      → put_beside sha256 dumps m copied o s ≡ ok s'
      → IsIntact s
      → IsIntact s'
  unfolding put_beside
  put_absent-IsIntact m copied none s s' free e h = put_copy-IsIntact m copied s s' free e h
  put_absent-IsIntact m copied (some x) s s' free e h =
      let (existing, _, rest) = bind-eq-ok (verify sha256 dumps (key_of m) s) _ s' e in
      let (_, _, same) =
        bind-eq-ok (require (manifest_beq existing m) snapshot_integrity) _ s' rest in
      subst IsIntact (ok-injective same) h

  -- Whatever `copytree` has written, what `put_if_absent` leaves among the snapshots verifies.
  pub put_if_absent-IsIntact :
      (source copied : SourceTree) (m : SnapshotManifest) (s s' : Store)
      → put_if_absent sha256 dumps source copied m s ≡ ok s'
      → IsIntact s
      → IsIntact s'
  unfolding put_if_absent
  put_if_absent-IsIntact source copied m s s' e h =
      let (_, _, e1) = bind-eq-ok (check_tree sha256 dumps source m) _ s' e in
      let (_, free, e2) =
        bind-eq-ok (require (not (has_tombstone (key_of m) s)) snapshot_integrity) _ s' e1 in
      let open' : has_tombstone (key_of m) s ≡ false =
        ground (arith, require-eq-ok (not (has_tombstone (key_of m) s)) snapshot_integrity free) in
      put_absent-IsIntact m copied _ s s' open' e2 h

  erase-IsIntact :
      (k : Key) (s : Store) (q : Dict Key String)
      → ((j : Key) → is_found (lookup j q) ≡ true → (k ≡ j) ⊎ (has_tombstone j s ≡ true))
      → IsIntact s
      → IsIntact (record { snapshots = erase k s.snapshots; quarantine = q })
  unfolding has_tombstone
  erase-IsIntact k s q only h = record {
    verified = λ j x e. elim (Bool-cases (k == j)) [
      | inl same ↦ absurd (ground (arith, lookup-erase k j s.snapshots))
      | inr other ↦ h.verified j x (sym (lookup-erase k j s.snapshots ∙ rw other) ∙ e)
    ];
    apart = λ j t. elim (Bool-cases (k == j)) [
      | inl same ↦ lookup-erase k j s.snapshots ∙ rw same
      | inr other ↦
          lookup-erase k j s.snapshots
          ∙ rw other (elim (only j t) [
            | inl same ↦ absurd (false≢true (sym other ∙ (pair_beq_iff k j).1 same))
            | inr stands ↦ h.apart j stands
          ])
    ];
  }

  quarantine_found-IsIntact :
      (k : Key) (reason : String) (o : Option Stored) (s : Store)
      → IsIntact s
      → IsIntact (quarantine_found k reason o s)
  unfolding quarantine_found has_tombstone
  quarantine_found-IsIntact k reason none s h = h
  quarantine_found-IsIntact k reason (some x) s h = elim (Bool-cases (has_tombstone k s)) [
    | inl stands ↦ rw stands (erase-IsIntact k s s.quarantine (λ j t. inr t) h)
    | inr absent ↦ rw absent (
        erase-IsIntact k s (insert k reason s.quarantine)
          (λ j t. elim (Bool-cases (k == j)) [
            | inl same ↦ inl ((pair_beq_iff k j).0 same)
            | inr other ↦ inr (rw (lookup-insert k j reason s.quarantine, other) at t)
          ])
          h)
  ]

  pub quarantine_snapshot-IsIntact :
      (k : Key) (reason : String) (s : Store)
      → IsIntact s
      → IsIntact (quarantine_snapshot k reason s)
  unfolding quarantine_snapshot
  quarantine_snapshot-IsIntact k reason s h = quarantine_found-IsIntact k reason _ s h

  -- A publication under an identity that has been quarantined is refused.
  pub put_if_absent-tombstone :
      (source copied : SourceTree) (m : SnapshotManifest) (s s' : Store)
      → has_tombstone (key_of m) s ≡ true
      → put_if_absent sha256 dumps source copied m s ≢ ok s'
  unfolding put_if_absent
  put_if_absent-tombstone source copied m s s' stands e =
      let (_, _, e1) = bind-eq-ok (check_tree sha256 dumps source m) _ s' e in
      let (_, free, _) =
        bind-eq-ok (require (not (has_tombstone (key_of m) s)) snapshot_integrity) _ s' e1 in
      cc (stands, require-eq-ok (not (has_tombstone (key_of m) s)) snapshot_integrity free)
