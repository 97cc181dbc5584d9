-- ===== src/Revisions/Store/Withdrawn.antt =====
-- A snapshot that has been put in quarantine, through whatever the store is asked afterwards.
use warden_drydock.Prelude.{
  String, ◌≡◌, ◌≢◌, refl, ap, ◌∙◌, true, not, Option, none, some, inl, inr, arith, Bool-cases, ◌==◌,
  string_eq, pair_eq, pair_beq_iff, List,
}
use warden_drydock.Prelude.Dict.{lookup, insert, erase, lookup-insert, lookup-erase}
use warden_drydock.Prelude.Result.{ok, err, require, bind-eq-ok}
use warden_drydock.Revisions.Models.{
  snapshot_integrity, file_not_found, manifest_beq, FileHash, SnapshotManifest,
}
use warden_drydock.Revisions.Canonical.{SourceTree}
use warden_drydock.Revisions.Store.{
  Key, Stored, Store, key_of, has_tombstone, is_found, quarantine_found, quarantine_snapshot,
  put_if_absent, put_beside, put_copy, verify, check_tree, discard_unpublished_snapshot,
}
use warden_drydock.Revisions.Store.Laws.{
  lookup-quarantine_snapshot, quarantine_snapshot-tombstone, put_if_absent-tombstone,
}

-- The key has a tombstone and no snapshot.
abbrev IsWithdrawn : Key → Store → Type 0
IsWithdrawn k s = (has_tombstone k s ≡ true) × (lookup k s.snapshots ≡ none)

erased :
    (k j : Key) (s : Store) → lookup k s.snapshots ≡ none → lookup k (erase j s.snapshots) ≡ none
erased k j s e = ground (arith, lookup-erase j k s.snapshots, e)

quarantine_found-IsWithdrawn :
    (k j : Key) (reason : String) (o : Option Stored) (s : Store)
    → IsWithdrawn k s
    → IsWithdrawn k (quarantine_found j reason o s)
unfolding quarantine_found has_tombstone is_found
quarantine_found-IsWithdrawn k j reason none s h = h
quarantine_found-IsWithdrawn k j reason (some x) s (t, e) = elim (Bool-cases (has_tombstone j s)) [
  | inl stands ↦ rw stands (t, erased k j s e)
  | inr absent ↦ rw absent (
    elim (Bool-cases (j == k)) [
      | inl same ↦ rw (lookup-insert j k reason s.quarantine, same) refl
      | inr other ↦ rw (lookup-insert j k reason s.quarantine, other) t
    ],
    erased k j s e,
  )
]

module _ (sha256 : String → String) (dumps : List FileHash → String) where
  -- What the store may become by calls that do not raise; one that raises leaves it as it was.
  pub data Later (s : Store) : Store → Type 0 where
    now : Later s s
    puts :
        {q q' : Store} (source copied : SourceTree) (m : SnapshotManifest)
        → Later s q
        → put_if_absent sha256 dumps source copied m q ≡ ok q'
        → Later s q'
    quarantines :
        {q : Store} (k : Key) (reason : String)
        → Later s q
        → Later s (quarantine_snapshot k reason q)
    discards :
        {q q' : Store} (m : SnapshotManifest)
        → Later s q
        → discard_unpublished_snapshot sha256 dumps m q ≡ ok q'
        → Later s q'

  put_beside-IsWithdrawn :
      (k : Key) (copied : SourceTree) (m : SnapshotManifest) (o : Option Stored) (q q' : Store)
      → IsWithdrawn k q
      → key_of m ≢ k
      → put_beside sha256 dumps m copied o q ≡ ok q'
      → IsWithdrawn k q'
  unfolding put_beside put_copy has_tombstone
  put_beside-IsWithdrawn k copied m none q q' (t, e) other h =
      let (_, _, h1) = bind-eq-ok (check_tree sha256 dumps copied m) _ q' h in
      let stored : Stored = record { manifest = m; tree = copied } in
      let at : q' ≡ record q { snapshots = insert (key_of m) stored q.snapshots } = cc (h1) in
      rw at (
        t,
        elim (Bool-cases (key_of m == k)) [
          | inl same ↦ absurd (other ((pair_beq_iff (key_of m) k).0 same))
          | inr differs ↦ rw (lookup-insert (key_of m) k stored q.snapshots, differs) e
        ],
      )
  put_beside-IsWithdrawn k copied m (some x) q q' w other h =
      let (existing, _, h1) = bind-eq-ok (verify sha256 dumps (key_of m) q) _ q' h in
      let (_, _, h2) = bind-eq-ok (require (manifest_beq existing m) snapshot_integrity) _ q' h1 in
      let at : q' ≡ q = cc (h2) in rw at w

  put_if_absent-IsWithdrawn :
      (k : Key) (source copied : SourceTree) (m : SnapshotManifest) (q q' : Store)
      → IsWithdrawn k q
      → put_if_absent sha256 dumps source copied m q ≡ ok q'
      → IsWithdrawn k q'
  unfolding put_if_absent
  put_if_absent-IsWithdrawn k source copied m q q' w h =
      let (_, _, h1) = bind-eq-ok (check_tree sha256 dumps source m) _ q' h in
      let (_, _, h2) =
        bind-eq-ok (require (not (has_tombstone (key_of m) q)) snapshot_integrity) _ q' h1 in
      put_beside-IsWithdrawn k copied m (lookup (key_of m) q.snapshots) q q' w
        (λ same.
          put_if_absent-tombstone sha256 dumps source copied m q q'
            (ap (λ i. has_tombstone i q) same ∙ w.0) h)
        h2

  discard-IsWithdrawn :
      (k : Key) (m : SnapshotManifest) (q q' : Store)
      → IsWithdrawn k q
      → discard_unpublished_snapshot sha256 dumps m q ≡ ok q'
      → IsWithdrawn k q'
  unfolding discard_unpublished_snapshot has_tombstone
  discard-IsWithdrawn k m q q' (t, e) h =
      let (existing, _, h1) = bind-eq-ok (verify sha256 dumps (key_of m) q) _ q' h in
      let (_, _, h2) = bind-eq-ok (require (manifest_beq existing m) snapshot_integrity) _ q' h1 in
      let at : q' ≡ record q { snapshots = erase (key_of m) q.snapshots } = cc (h2) in
      rw at (t, erased k (key_of m) q e)

  Later-IsWithdrawn : (k : Key) (s q : Store) → IsWithdrawn k s → Later s q → IsWithdrawn k q
  unfolding quarantine_snapshot
  Later-IsWithdrawn k s q w now = w
  Later-IsWithdrawn k s q w (puts {q = p} source copied m l e) =
      put_if_absent-IsWithdrawn k source copied m p q (Later-IsWithdrawn k s p w l) e
  Later-IsWithdrawn k s q w (quarantines {q = p} j reason l) =
      quarantine_found-IsWithdrawn k j reason (lookup j p.snapshots) p (Later-IsWithdrawn k s p w l)
  Later-IsWithdrawn k s q w (discards {q = p} m l e) =
      discard-IsWithdrawn k m p q (Later-IsWithdrawn k s p w l) e

  -- Once a snapshot that was there has been put in quarantine, no sequence of later calls of the store
  -- brings it back: it cannot be found under its key any more, and nothing can be stored under it.
  pub quarantine_snapshot-final :
      (m : SnapshotManifest) (reason : String) (x : Stored) (s q q' : Store)
      (source copied : SourceTree)
      → lookup (key_of m) s.snapshots ≡ some x
      → Later (quarantine_snapshot (key_of m) reason s) q
      → (verify sha256 dumps (key_of m) q ≡ err file_not_found)
        × (put_if_absent sha256 dumps source copied m q ≢ ok q')
  unfolding verify
  quarantine_snapshot-final m reason x s q q' source copied found later =
      let k = key_of m in
      let (stands, gone) =
        Later-IsWithdrawn k (quarantine_snapshot k reason s) q
          (quarantine_snapshot-tombstone k reason s x found, lookup-quarantine_snapshot k reason s)
          later in
      (rw gone refl, put_if_absent-tombstone sha256 dumps source copied m q q' stands)
