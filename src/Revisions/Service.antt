-- ===== src/Revisions/Service.antt =====
-- hosted/revisions/service.py: `RevisionService` over the store and the in-memory repository. The
-- callback `before_finalize` works outside both; it is given by whether it returns.
pub mod Reach
pub mod Storage
pub mod Outcomes
use warden_drydock.Prelude.{
  ℕ, suc, ◌+◌, String, Bool, true, false, not, Option, none, some, List, [], ◌∷◌, ◌++◌, ◌&&◌, ◌||◌,
  ◌==◌, nat_eq, string_eq, option_eq, length, filter, if◌then◌else◌,
}
use warden_drydock.Prelude.Result.{Result, ok, err, ◌>>=◌, ◌>>◌, require}
use warden_drydock.Revisions.Models.{
  RevisionError, snapshot_integrity, stale_head, publication_intent, callback_error, IntentStatus,
  finalized, status_beq, FileHash, SnapshotManifest, PublicationIntent, manifest_beq,
}
use warden_drydock.Revisions.Checks.{check_manifest}
use warden_drydock.Revisions.Canonical.{SourceTree, canonicalize_tree}
use warden_drydock.Revisions.Repository
use warden_drydock.Revisions.Repository.{
  Repository, add_intent, matching_intents, finalize_head, quarantine_intent, binds,
}
use warden_drydock.Revisions.Store
use warden_drydock.Revisions.Store.{Store, key_of, verify, put_if_absent, quarantine_snapshot}

pub record World : Type 0 where
  pub store : Store
  pub repository : Repository

abbrev pub start : World
start = record { store = Store.no_snapshots; repository = Repository.empty }

-- What the callers give beside the intent: the versions, and the digest of the validation.
pub record Versions : Type 0 where
  pub framework_version : String
  pub adapter_version : String
  pub validation_contract_digest : String

unfoldable pub manifest_for :
    PublicationIntent → Versions → List FileHash → String → SnapshotManifest
manifest_for i v files digest = record {
  campaign_id = i.campaign_id;
  revision_id = i.revision_id;
  parent_revision = i.parent_revision;
  ordinal = i.ordinal;
  tree_digest = digest;
  files = files;
  framework_version = v.framework_version;
  adapter_version = v.adapter_version;
  validation_contract_digest = v.validation_contract_digest;
  change_digest = i.change_digest;
  publication_intent_token = i.intent_token;
  manifest_version = 1;
}

-- The loop that quarantines every matching intent that is not finalized.
unfoldable pub quarantine_intents : List PublicationIntent → Repository → Repository
quarantine_intents [] r = r
quarantine_intents (i ∷ is) r =
    quarantine_intents is
      (if status_beq i.status finalized then r else (quarantine_intent i.intent_id r).1)

-- The snapshot and the intent of a publication that cannot be finalized are put away.
unfoldable pub put_away : SnapshotManifest → String → PublicationIntent → World → World
put_away m reason i w = record {
  store = quarantine_snapshot (key_of m) reason w.store;
  repository = (quarantine_intent i.intent_id w.repository).1;
}

abandon :
    SnapshotManifest
    → String
    → RevisionError
    → PublicationIntent
    → World
    → Result RevisionError Bool × World
unfolding put_away
abandon m reason e i w = (err e, put_away m reason i w)

-- The last `try` block of `reconcile_manifest`, by how `finalize_head` ended.
settle :
    SnapshotManifest
    → PublicationIntent
    → World
    → Result RevisionError Bool × Repository
    → Result RevisionError Bool × World
unfolding abandon
settle m i w (ok b, r) = (ok b, record w { repository = r })
settle m i w (err stale_head, r) =
    abandon m "stale campaign head" stale_head i (record w { repository = r })
settle m i w (err publication_intent, r) =
    abandon m "publication intent changed during finalization" publication_intent i
      (record w { repository = r })
settle m i w (err e, r) = (err e, record w { repository = r })

unfoldable pub finish :
    Bool → SnapshotManifest → PublicationIntent → World → Result RevisionError Bool × World
unfolding settle abandon
finish prepared m i w =
    if prepared
    then settle m i w (finalize_head i w.repository)
    else abandon m "publication preparation failed" callback_error i w

-- `matches` and `exact`: the intent is used only where it is alone in both.
unfoldable pub with_matches :
    Bool → SnapshotManifest → List PublicationIntent → World → Result RevisionError Bool × World
unfolding finish quarantine_intents
with_matches prepared m (i ∷ []) w = if binds i m then finish prepared m i w else (
  err publication_intent,
  record {
    store = quarantine_snapshot (key_of m) "missing or ambiguous publication intent" w.store;
    repository = quarantine_intents (i ∷ []) w.repository;
  },
)
with_matches prepared m matches w = (
  err publication_intent,
  record {
    store = quarantine_snapshot (key_of m) "missing or ambiguous publication intent" w.store;
    repository = quarantine_intents matches w.repository;
  },
)

module _ (sha256 : String → String) (dumps : List FileHash → String) where
  with_stored :
      Bool
      → SnapshotManifest
      → Result RevisionError SnapshotManifest
      → World
      → Result RevisionError Bool × World
  unfolding with_matches
  with_stored prepared m (err e) w = (err e, w)
  with_stored prepared m (ok stored) w =
      if manifest_beq stored m
      then with_matches prepared m (matching_intents m.publication_intent_token w.repository) w
      else (err snapshot_integrity, w)

  unfoldable pub reconcile_manifest :
      Bool → SnapshotManifest → World → Result RevisionError Bool × World
  unfolding with_stored
  reconcile_manifest prepared m w =
      with_stored prepared m (verify sha256 dumps (key_of m) w.store) w

  -- The manifest that `publish` builds before it touches the store or the repository.
  unfoldable pub build_manifest :
      SourceTree → PublicationIntent → Versions → Result RevisionError SnapshotManifest
  unfolding manifest_for
  build_manifest source i v = do
    found ← canonicalize_tree sha256 dumps source
    require (found.1 == i.tree_digest) snapshot_integrity
    check_manifest (manifest_for i v found.0 found.1)

  reconciled :
      SnapshotManifest
      → Result RevisionError Bool × World
      → Result RevisionError SnapshotManifest × World
  reconciled m (ok _, w) = (ok m, w)
  reconciled m (err e, w) = (err e, w)

  put_then_reconcile :
      Bool
      → SnapshotManifest
      → Result RevisionError Store
      → Repository
      → World
      → Result RevisionError SnapshotManifest × World
  unfolding reconciled reconcile_manifest
  put_then_reconcile prepared m (err e) r w = (err e, record w { repository = r })
  put_then_reconcile prepared m (ok s) r w =
      reconciled m (reconcile_manifest prepared m (record { store = s; repository = r }))

  add_then_put :
      Bool
      → SourceTree
      → SourceTree
      → SnapshotManifest
      → Result RevisionError (Unit {0}) × Repository
      → World
      → Result RevisionError SnapshotManifest × World
  unfolding put_then_reconcile
  add_then_put prepared source copied m (err e, r) w = (err e, w)
  add_then_put prepared source copied m (ok _, r) w =
      put_then_reconcile prepared m (put_if_absent sha256 dumps source copied m w.store) r w

  publish_built :
      Bool
      → SourceTree
      → SourceTree
      → PublicationIntent
      → Result RevisionError SnapshotManifest
      → World
      → Result RevisionError SnapshotManifest × World
  unfolding add_then_put
  publish_built prepared source copied i (err e) w = (err e, w)
  publish_built prepared source copied i (ok m) w =
      add_then_put prepared source copied m (add_intent i w.repository) w

  -- `publish`, with the default `finalizer`. A `rollback` has no part in the store or repository.
  unfoldable pub publish :
      Bool
      → SourceTree
      → SourceTree
      → PublicationIntent
      → Versions
      → World
      → Result RevisionError SnapshotManifest × World
  unfolding publish_built build_manifest
  publish prepared source copied i v w =
      publish_built prepared source copied i (build_manifest source i v) w
