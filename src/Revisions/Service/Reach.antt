-- ===== src/Revisions/Service/Reach.antt =====
-- The publications and reconciliations that a service can make, in any order, and what holds of the
-- repository after all of them.
use warden_drydock.Prelude.{
  String, ◌≡◌, refl, Bool, true, false, some, List, [], ◌∷◌, inl, inr, Mem, Bool-cases, string_eq,
}
use warden_drydock.Prelude.Dict.{lookup}
use warden_drydock.Prelude.Result.{Result, ok, err}
use warden_drydock.Revisions.Models.{
  RevisionError, stale_head, publication_intent, finalized, status_beq, FileHash, SnapshotManifest,
  PublicationIntent, manifest_beq,
}
use warden_drydock.Revisions.Canonical.{SourceTree}
use warden_drydock.Revisions.Repository.{
  Repository, add_intent, finalize_head, quarantine_intent, binds,
}
use warden_drydock.Revisions.Repository.Chain.{
  Published, IsChained, empty-IsChained, add_intent-IsChained, quarantine_intent-IsChained,
  finalize_head-IsChained,
}
use warden_drydock.Revisions.Repository.Index.{
  IsIndexed, add_intent-IsIndexed, quarantine_intent-IsIndexed, finalize_head-IsIndexed,
  lookup-matching,
}
use warden_drydock.Revisions.Store.{Store}
use warden_drydock.Revisions.Service.{
  World, start, Versions, quarantine_intents, settle, finish, with_matches, with_stored,
  reconcile_manifest, reconciled, put_then_reconcile, add_then_put, publish_built, publish,
  put_away,
}

pub record IsSound (r : Repository) : Type 0 where
  pub chained : IsChained r
  pub indexed : IsIndexed r.intents

add-IsSound : (i : PublicationIntent) (r : Repository) → IsSound r → IsSound (add_intent i r).1
add-IsSound i r h = record {
  chained = add_intent-IsChained i r h.chained;
  indexed = add_intent-IsIndexed i r h.indexed;
}

quarantine-IsSound : (id : String) (r : Repository) → IsSound r → IsSound (quarantine_intent id r).1
quarantine-IsSound id r h = record {
  chained = quarantine_intent-IsChained id r h.chained;
  indexed = quarantine_intent-IsIndexed id r h.indexed;
}

finalize-IsSound :
    (i : PublicationIntent) (r : Repository)
    → lookup i.intent_id r.intents ≡ some i
    → IsSound r
    → IsSound (finalize_head i r).1
finalize-IsSound i r e h = record {
  chained = finalize_head-IsChained i r e h.chained;
  indexed = finalize_head-IsIndexed i r h.indexed;
}

quarantine_intents-IsSound :
    (is : List PublicationIntent) (r : Repository) → IsSound r → IsSound (quarantine_intents is r)
unfolding quarantine_intents
quarantine_intents-IsSound [] r h = h
quarantine_intents-IsSound (i ∷ is) r h = elim (Bool-cases (status_beq i.status finalized)) [
  | inl e ↦ rw e (quarantine_intents-IsSound is r h)
  | inr e ↦ rw e (
      quarantine_intents-IsSound is (quarantine_intent i.intent_id r).1
        (quarantine-IsSound i.intent_id r h))
]

settle-IsSound :
    (m : SnapshotManifest) (i : PublicationIntent) (w : World)
    (x : Result RevisionError Bool × Repository)
    → IsSound x.1
    → IsSound (settle m i w x).1.repository
unfolding settle put_away
settle-IsSound m i w (ok b, r) h = h
settle-IsSound m i w (err stale_head, r) h = quarantine-IsSound i.intent_id r h
settle-IsSound m i w (err publication_intent, r) h = quarantine-IsSound i.intent_id r h
settle-IsSound m i w (err _, r) h = h

finish-IsSound :
    (prepared : Bool) (m : SnapshotManifest) (i : PublicationIntent) (w : World)
    → lookup i.intent_id w.repository.intents ≡ some i
    → IsSound w.repository
    → IsSound (finish prepared m i w).1.repository
unfolding finish put_away
finish-IsSound true m i w e h = settle-IsSound m i w _ (finalize-IsSound i w.repository e h)
finish-IsSound false m i w e h = quarantine-IsSound i.intent_id w.repository h

with_matches-IsSound :
    (prepared : Bool) (m : SnapshotManifest) (is : List PublicationIntent) (w : World)
    → ((i : PublicationIntent) → Mem i is → lookup i.intent_id w.repository.intents ≡ some i)
    → IsSound w.repository
    → IsSound (with_matches prepared m is w).1.repository
unfolding with_matches
with_matches-IsSound prepared m [] w e h = h
with_matches-IsSound prepared m (i ∷ []) w e h = elim (Bool-cases (binds i m)) [
  | inl bound ↦ rw bound (finish-IsSound prepared m i w (e i (inl refl)) h)
  | inr other ↦ rw other (quarantine_intents-IsSound (i ∷ []) w.repository h)
]
with_matches-IsSound prepared m (i ∷ j ∷ is) w e h =
    quarantine_intents-IsSound (i ∷ j ∷ is) w.repository h

module _ (sha256 : String → String) (dumps : List FileHash → String) where
  with_stored-IsSound :
      (prepared : Bool) (m : SnapshotManifest) (x : Result RevisionError SnapshotManifest)
      (w : World)
      → IsSound w.repository
      → IsSound (with_stored sha256 dumps prepared m x w).1.repository
  unfolding with_stored
  with_stored-IsSound prepared m (err e) w h = h
  with_stored-IsSound prepared m (ok stored) w h = elim (Bool-cases (manifest_beq stored m)) [
    | inl e ↦ rw e (
        with_matches-IsSound prepared m _ w
          (λ i k. (lookup-matching m.publication_intent_token w.repository i h.indexed k).0) h)
    | inr e ↦ rw e h
  ]

  reconcile_manifest-IsSound :
      (prepared : Bool) (m : SnapshotManifest) (w : World)
      → IsSound w.repository
      → IsSound (reconcile_manifest sha256 dumps prepared m w).1.repository
  unfolding reconcile_manifest
  reconcile_manifest-IsSound prepared m w h = with_stored-IsSound prepared m _ w h

  put_then_reconcile-IsSound :
      (prepared : Bool) (m : SnapshotManifest) (x : Result RevisionError Store) (r : Repository)
      (w : World)
      → IsSound r
      → IsSound (put_then_reconcile sha256 dumps prepared m x r w).1.repository
  unfolding put_then_reconcile reconciled
  put_then_reconcile-IsSound prepared m (err e) r w h = h
  put_then_reconcile-IsSound prepared m (ok s) r w h =
      reconciled-IsSound _
        (reconcile_manifest-IsSound prepared m (record { store = s; repository = r }) h)
    where
      reconciled-IsSound :
          (x : Result RevisionError Bool × World)
          → IsSound x.1.repository
          → IsSound (reconciled sha256 dumps m x).1.repository
      reconciled-IsSound (ok _, w') k = k
      reconciled-IsSound (err _, w') k = k

  publish_built-IsSound :
      (prepared : Bool) (source copied : SourceTree) (i : PublicationIntent)
      (x : Result RevisionError SnapshotManifest) (w : World)
      → IsSound w.repository
      → IsSound (publish_built sha256 dumps prepared source copied i x w).1.repository
  unfolding publish_built add_then_put
  publish_built-IsSound prepared source copied i (err e) w h = h
  publish_built-IsSound prepared source copied i (ok m) w h =
      added-IsSound (add_intent i w.repository) (add-IsSound i w.repository h)
    where
      added-IsSound :
          (x : Result RevisionError (Unit {0}) × Repository)
          → IsSound x.1
          → IsSound (add_then_put sha256 dumps prepared source copied m x w).1.repository
      added-IsSound (err e, r) k = h
      added-IsSound (ok _, r) k = put_then_reconcile-IsSound prepared m _ r w k

  -- One call of the service. What the callbacks, the copied tree and the arguments are is open.
  pub data Step (w : World) : World → Type 0 where
    publishes :
        (prepared : Bool) (source copied : SourceTree) (i : PublicationIntent) (v : Versions)
        → Step w (publish sha256 dumps prepared source copied i v w).1
    reconciles :
        (prepared : Bool) (m : SnapshotManifest)
        → Step w (reconcile_manifest sha256 dumps prepared m w).1

  pub data Reach : World → Type 0 where
    here : Reach start
    next : {w w' : World} → Reach w → Step w w' → Reach w'

  Step-IsSound : {w w' : World} → Step w w' → IsSound w.repository → IsSound w'.repository
  unfolding publish
  Step-IsSound {w = w} (publishes prepared source copied i v) h =
      publish_built-IsSound prepared source copied i _ w h
  Step-IsSound {w = w} (reconciles prepared m) h = reconcile_manifest-IsSound prepared m w h

  Reach-IsSound : {w : World} → Reach w → IsSound w.repository
  Reach-IsSound here = record { chained = empty-IsChained; indexed = tt }
  Reach-IsSound (next r s) = Step-IsSound s (Reach-IsSound r)

  -- After any sequence of publications and reconciliations, successful or not, the head of each
  -- campaign is the last of a chain of registered intents of that campaign: the first has no parent
  -- and the ordinal 1, and each later one names its predecessor's revision as its parent and has the
  -- next ordinal.
  pub Reach-Published :
      (w : World) (campaign : String)
      → Reach w
      → Published w.repository.intents campaign (lookup campaign w.repository.heads)
  Reach-Published w campaign r = (Reach-IsSound r).chained.heads campaign
