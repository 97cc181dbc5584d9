-- ===== src/Revisions/Tests.antt =====
-- A first publication, and the theorems at it. Every digest is the same text of 64 digits.
use warden_drydock.Prelude.{
  Mem, All, filter, String, ◌≡◌, ◌≢◌, refl, true, false, none, List, [], ◌∷◌, string_eq, pair_eq,
}
use warden_drydock.Prelude.Dict.{lookup, insert, erase, values, keys}
use warden_drydock.Prelude.Sort.{sort}
use warden_drydock.Prelude.Text.{codes_leb}
use warden_drydock.Prelude.Result.{ok, err}
use warden_drydock.Revisions.Models.{
  file_not_found, FileHash, SnapshotManifest, PublicationIntent, creation, pending, file_beq,
  manifest_beq, status_beq,
}
use warden_drydock.Revisions.Checks.{check_manifest, all_distinct}
use warden_drydock.Revisions.Canonical.{SourceTree, regular, directory, canonicalize_tree}
use warden_drydock.Revisions.Repository.{add_intent, matching_intents, binds, finalize_head}
use warden_drydock.Revisions.Repository.Chain.{Published}
use warden_drydock.Revisions.Store.{
  Store, key_of, verify, put_if_absent, quarantine_snapshot, inventory,
}
use warden_drydock.Revisions.Store.Laws.{IsIntact}
use warden_drydock.Revisions.Store.Withdrawn.{now, quarantine_snapshot-final}
use warden_drydock.Revisions.Lineage.Linear.{InLine, verify_linear_inventory-InLine}
use warden_drydock.Revisions.Service.{World, start, Versions, publish, reconcile_manifest}
use warden_drydock.Revisions.Service.Reach.{Reach, here, next, publishes, Reach-Published}
use warden_drydock.Revisions.Service.Storage.{Reach-IsIntact}
use warden_drydock.Revisions.Lineage.{verify_linear_inventory}
use warden_drydock.Revisions.Service.Outcomes.{Outcome, reconcile_manifest-Outcome}

abbrev digest : String
digest = "aaaaaaaaaaaaaaaaaaaaaaaaaaaaaaaaaaaaaaaaaaaaaaaaaaaaaaaaaaaaaaaa"

abbrev sha256 : String → String
sha256 text = digest

abbrev dumps : List FileHash → String
dumps files = ""

abbrev tree : SourceTree
tree = record {
  root_is_link = false;
  entries =
      record { path = "b"; kind = directory }
      ∷ record { path = "b/r.md"; kind = regular "text" }
      ∷ record { path = "a.json"; kind = regular "{}" }
      ∷ [];
}

abbrev intent : PublicationIntent
intent = record {
  intent_id = "intent_one";
  intent_token = "token_one";
  kind = creation;
  campaign_id = "campaign_one";
  revision_id = "revision_one";
  parent_revision = none;
  ordinal = 1;
  tree_digest = digest;
  change_digest = digest;
  status = pending;
}

abbrev manifest : SnapshotManifest
manifest = record {
  campaign_id = "campaign_one";
  revision_id = "revision_one";
  parent_revision = none;
  ordinal = 1;
  tree_digest = digest;
  files =
      record { relative_path = "a.json"; sha256 = digest }
      ∷ record { relative_path = "b/r.md"; sha256 = digest }
      ∷ [];
  framework_version = "0.2.0";
  adapter_version = "1.0.0";
  validation_contract_digest = digest;
  change_digest = digest;
  publication_intent_token = "token_one";
  manifest_version = 1;
}

abbrev versions : Versions
versions = record {
  framework_version = "0.2.0";
  adapter_version = "1.0.0";
  validation_contract_digest = digest;
}

-- The world before the reconciliation: the intent is registered and the snapshot is stored.
abbrev waiting : World
waiting = record {
  store = record {
    snapshots = (key_of manifest, record { manifest = manifest; tree = tree }) ∷ [];
    quarantine = [];
  };
  repository = record { intents = ("intent_one", intent) ∷ []; heads = []; audit = [] };
}

publish_first : (publish sha256 dumps true tree tree intent versions start).0 ≡ ok manifest
unfolding publish lookup insert canonicalize_tree sort codes_leb check_manifest file_beq
    all_distinct add_intent values put_if_absent manifest_beq matching_intents binds finalize_head
    status_beq
publish_first = refl

publish_unprepared :
    (publish sha256 dumps false tree tree intent versions start).1.store.snapshots ≡ []
unfolding publish lookup insert canonicalize_tree sort codes_leb check_manifest file_beq
    all_distinct add_intent values put_if_absent manifest_beq matching_intents binds
    quarantine_snapshot erase
publish_unprepared = refl

abbrev after : World
after = (publish sha256 dumps true tree tree intent versions start).1

abbrev after-Reach : Reach sha256 dumps after
after-Reach = next here (publishes true tree tree intent versions)

Reach-Published_example :
    Published after.repository.intents "campaign_one" (lookup "campaign_one" after.repository.heads)
Reach-Published_example = Reach-Published sha256 dumps after "campaign_one" after-Reach

Reach-IsIntact_example : IsIntact sha256 dumps after.store
Reach-IsIntact_example = Reach-IsIntact sha256 dumps after after-Reach

reconcile_manifest-Outcome_example :
    Outcome manifest waiting (reconcile_manifest sha256 dumps true manifest waiting)
unfolding lookup verify canonicalize_tree sort codes_leb file_beq
reconcile_manifest-Outcome_example =
    reconcile_manifest-Outcome sha256 dumps true manifest waiting (refl, refl, tt) refl

-- The store once the snapshot has been put in quarantine.
abbrev hidden : Store
hidden = quarantine_snapshot (key_of manifest) "stale campaign head" after.store

quarantine_snapshot-final_example :
    (verify sha256 dumps (key_of manifest) hidden ≡ err file_not_found)
    × (put_if_absent sha256 dumps tree tree manifest hidden ≢ ok hidden)
unfolding publish lookup insert canonicalize_tree sort codes_leb check_manifest file_beq
    all_distinct add_intent values put_if_absent manifest_beq matching_intents binds finalize_head
    status_beq
quarantine_snapshot-final_example =
    quarantine_snapshot-final sha256 dumps manifest "stale campaign head"
      (record { manifest = manifest; tree = tree }) after.store hidden hidden tree tree refl now

verify_linear_inventory-InLine_example :
    Mem manifest (manifest ∷ []) × All (InLine sha256 dumps after (manifest ∷ [])) (manifest ∷ [])
unfolding publish lookup insert canonicalize_tree sort codes_leb check_manifest file_beq
    all_distinct add_intent values put_if_absent manifest_beq matching_intents binds finalize_head
    status_beq verify_linear_inventory inventory keys filter
verify_linear_inventory-InLine_example =
    verify_linear_inventory-InLine sha256 dumps after (manifest ∷ []) (key_of manifest)
      (record { manifest = manifest; tree = tree }) refl refl
