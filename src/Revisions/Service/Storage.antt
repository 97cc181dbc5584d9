-- ===== src/Revisions/Service/Storage.antt =====
-- The store under any sequence of publications and reconciliations.
use warden_drydock.Prelude.{
  String, ◌≡◌, refl, Bool, true, false, List, [], ◌∷◌, inl, inr, Bool-cases, string_eq, pair_eq,
}
use warden_drydock.Prelude.Dict.{lookup}
use warden_drydock.Prelude.Result.{Result, ok, err}
use warden_drydock.Revisions.Models.{
  RevisionError, stale_head, publication_intent, FileHash, SnapshotManifest, PublicationIntent,
  manifest_beq,
}
use warden_drydock.Revisions.Canonical.{SourceTree}
use warden_drydock.Revisions.Repository.{Repository, binds}
use warden_drydock.Revisions.Store.{Store, key_of, has_tombstone}
use warden_drydock.Revisions.Store.Laws.{
  IsIntact, put_if_absent-IsIntact, quarantine_snapshot-IsIntact,
}
use warden_drydock.Revisions.Service.{
  World, settle, finish, with_matches, with_stored, reconcile_manifest, reconciled,
  put_then_reconcile, add_then_put, publish_built, publish, put_away,
}
use warden_drydock.Revisions.Service.Reach.{Step, publishes, reconciles, Reach, here, next}

module _ (sha256 : String → String) (dumps : List FileHash → String) where
  abbrev Keeps : World → Type 0
  Keeps w = IsIntact sha256 dumps w.store

  settle-Keeps :
      (m : SnapshotManifest) (i : PublicationIntent) (w : World)
      (x : Result RevisionError Bool × Repository)
      → Keeps w
      → Keeps (settle m i w x).1
  unfolding settle put_away
  settle-Keeps m i w (ok b, r) h = h
  settle-Keeps m i w (err stale_head, r) h =
      quarantine_snapshot-IsIntact sha256 dumps (key_of m) _ w.store h
  settle-Keeps m i w (err publication_intent, r) h =
      quarantine_snapshot-IsIntact sha256 dumps (key_of m) _ w.store h
  settle-Keeps m i w (err _, r) h = h

  finish-Keeps :
      (prepared : Bool) (m : SnapshotManifest) (i : PublicationIntent) (w : World)
      → Keeps w
      → Keeps (finish prepared m i w).1
  unfolding finish put_away
  finish-Keeps true m i w h = settle-Keeps m i w _ h
  finish-Keeps false m i w h = quarantine_snapshot-IsIntact sha256 dumps (key_of m) _ w.store h

  with_matches-Keeps :
      (prepared : Bool) (m : SnapshotManifest) (is : List PublicationIntent) (w : World)
      → Keeps w
      → Keeps (with_matches prepared m is w).1
  unfolding with_matches
  with_matches-Keeps prepared m [] w h =
      quarantine_snapshot-IsIntact sha256 dumps (key_of m) _ w.store h
  with_matches-Keeps prepared m (i ∷ []) w h = elim (Bool-cases (binds i m)) [
    | inl bound ↦ rw bound (finish-Keeps prepared m i w h)
    | inr other ↦ rw other (quarantine_snapshot-IsIntact sha256 dumps (key_of m) _ w.store h)
  ]
  with_matches-Keeps prepared m (i ∷ j ∷ is) w h =
      quarantine_snapshot-IsIntact sha256 dumps (key_of m) _ w.store h

  with_stored-Keeps :
      (prepared : Bool) (m : SnapshotManifest) (x : Result RevisionError SnapshotManifest)
      (w : World)
      → Keeps w
      → Keeps (with_stored sha256 dumps prepared m x w).1
  unfolding with_stored
  with_stored-Keeps prepared m (err e) w h = h
  with_stored-Keeps prepared m (ok stored) w h = elim (Bool-cases (manifest_beq stored m)) [
    | inl e ↦ rw e (with_matches-Keeps prepared m _ w h)
    | inr e ↦ rw e h
  ]

  reconciled-Keeps :
      (m : SnapshotManifest) (x : Result RevisionError Bool × World)
      → Keeps x.1
      → Keeps (reconciled sha256 dumps m x).1
  unfolding reconciled
  reconciled-Keeps m (ok _, w) h = h
  reconciled-Keeps m (err _, w) h = h

  put-Keeps :
      (prepared : Bool) (m : SnapshotManifest) (x : Result RevisionError Store) (r : Repository)
      (w : World)
      → Keeps w
      → ((s : Store) → x ≡ ok s → IsIntact sha256 dumps s)
      → Keeps (put_then_reconcile sha256 dumps prepared m x r w).1
  unfolding put_then_reconcile reconcile_manifest
  put-Keeps prepared m (err e) r w h k = h
  put-Keeps prepared m (ok s) r w h k =
      reconciled-Keeps m _ (with_stored-Keeps prepared m _ _ (k s refl))

  add-Keeps :
      (prepared : Bool) (source copied : SourceTree) (m : SnapshotManifest)
      (x : Result RevisionError (Unit {0}) × Repository) (w : World)
      → Keeps w
      → Keeps (add_then_put sha256 dumps prepared source copied m x w).1
  unfolding add_then_put
  add-Keeps prepared source copied m (err e, r) w h = h
  add-Keeps prepared source copied m (ok _, r) w h =
      put-Keeps prepared m _ r w h
        (λ s e. put_if_absent-IsIntact sha256 dumps source copied m w.store s e h)

  built-Keeps :
      (prepared : Bool) (source copied : SourceTree) (i : PublicationIntent)
      (x : Result RevisionError SnapshotManifest) (w : World)
      → Keeps w
      → Keeps (publish_built sha256 dumps prepared source copied i x w).1
  unfolding publish_built
  built-Keeps prepared source copied i (err e) w h = h
  built-Keeps prepared source copied i (ok m) w h = add-Keeps prepared source copied m _ w h

  Step-Keeps : {w w' : World} → Step sha256 dumps w w' → Keeps w → Keeps w'
  unfolding publish reconcile_manifest
  Step-Keeps {w = w} (publishes prepared source copied i v) h =
      built-Keeps prepared source copied i _ w h
  Step-Keeps {w = w} (reconciles prepared m) h = with_stored-Keeps prepared m _ w h

  Reach-Keeps : {w : World} → Reach sha256 dumps w → Keeps w
  unfolding lookup has_tombstone
  Reach-Keeps here = record { verified = λ k x e. absurd (cc); apart = λ k e. absurd (cc) }
  Reach-Keeps (next r s) = Step-Keeps s (Reach-Keeps r)

  -- After any sequence of publications and reconciliations, with any trees written by the copying,
  -- every snapshot in the store passes its verification under the identity where it stands and gives
  -- its manifest, and no snapshot stands where the quarantine has a tombstone.
  pub Reach-IsIntact : (w : World) → Reach sha256 dumps w → IsIntact sha256 dumps w.store
  Reach-IsIntact w r = Reach-Keeps r
