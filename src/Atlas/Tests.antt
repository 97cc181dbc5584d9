-- ===== src/Atlas/Tests.antt =====
-- The projection of a first revision with two records, and the theorems at it. Every digest is the same
-- text of 64 digits.
use warden_drydock.Prelude.{
  ℕ, String, ◌≡◌, refl, true, false, Option, none, some, List, [], ◌∷◌, All, string_eq, pair_eq,
}
use warden_drydock.Prelude.Dict.{lookup, insert, keys, values}
use warden_drydock.Prelude.Sets.{distinct, dedup}
use warden_drydock.Prelude.Sort.{sort}
use warden_drydock.Prelude.Text.{codes_leb}
use warden_drydock.Prelude.Result.{ok, err}
use warden_drydock.Campaign.Json.{Json}
use warden_drydock.Revisions.Models.{
  snapshot_lineage, FileHash, SnapshotManifest, PublicationIntent, creation, pending, file_beq,
}
use warden_drydock.Revisions.Canonical.{SourceTree, regular, canonicalize_tree}
use warden_drydock.Revisions.Store.{key_of, verify, campaign_inventory}
use warden_drydock.Revisions.Service.{World}
use warden_drydock.Atlas.Models.{
  AtlasRecord, AtlasHistoryChange, AtlasHistoryEntry, AtlasProjectionBundle, known, canon,
  preparation, missing, facet_counts,
}
use warden_drydock.Atlas.Lineage.{lineage_through, ends_with_target}
use warden_drydock.Atlas.Lineage.Linear.{IsLine, revisions_of, lineage_through-IsLine}
use warden_drydock.Atlas.Records.{Parsed, ids_of, parse_records}
use warden_drydock.Atlas.Records.Bound.{IsBound, parse_records-IsBound}
use warden_drydock.Atlas.History.{history_changes, added_change}
use warden_drydock.Atlas.Rebuild.{build, bundle_of, entry_of, is_valid_bundle}
use warden_drydock.Atlas.Rebuild.Projected.{IsProjection, build-IsProjection}

abbrev digest : String
digest = "aaaaaaaaaaaaaaaaaaaaaaaaaaaaaaaaaaaaaaaaaaaaaaaaaaaaaaaaaaaaaaaa"

abbrev sha256 : String → String
sha256 text = digest

abbrev dumps_files : List FileHash → String
dumps_files files = ""

abbrev dumps : ℕ → String → String → String
dumps n revision source = ""

abbrev fold : String → String
fold s = s

abbrev decode : String → Option String
decode s = some s

abbrev loads : String → Option Json
loads s = none

abbrev crew_text : String
crew_text = "---\nid: crew\ntype: faction\nstatus: canon\n---\n"

abbrev ripley_text : String
ripley_text =
    "---\nid: ripley\ntype: npc\n---\n## Connections\n- `member-of` -> [[crew]] (`current`) — signed on\n"

abbrev tree : SourceTree
tree = record {
  root_is_link = false;
  entries =
      record { path = "a/ripley.md"; kind = regular ripley_text }
      ∷ record { path = "b/crew.md"; kind = regular crew_text }
      ∷ [];
}

abbrev manifest : SnapshotManifest
manifest = record {
  campaign_id = "campaign_one";
  revision_id = "revision_one";
  parent_revision = none;
  ordinal = 1;
  tree_digest = digest;
  files =
      record { relative_path = "a/ripley.md"; sha256 = digest }
      ∷ record { relative_path = "b/crew.md"; sha256 = digest }
      ∷ [];
  framework_version = "0.2.0";
  adapter_version = "1.0.0";
  validation_contract_digest = digest;
  change_digest = digest;
  publication_intent_token = "token_one";
  manifest_version = 1;
}

abbrev intent : PublicationIntent
intent = record {
  intent_id = "intent_one";
  intent_token = "token_one";
  kind = creation;
  campaign_id = "campaign_one";
  revision_id = "revision_one";
  parent_revision = none;
  ordinal = 1;
  tree_digest = digest;
  change_digest = digest;
  status = pending;
}

abbrev world : World
world = record {
  store = record {
    snapshots = (key_of manifest, record { manifest = manifest; tree = tree }) ∷ [];
    quarantine = [];
  };
  repository = record { intents = ("intent_one", intent) ∷ []; heads = []; audit = [] };
}

abbrev crew : AtlasRecord
crew = record {
  record_id = "crew";
  record_type = "faction";
  name = "crew";
  raw_status = record { kind = known; value = some "canon" };
  authority = canon;
  summary = "No summary recorded.";
  content = crew_text;
  content_digest = digest;
}

abbrev ripley : AtlasRecord
ripley = record {
  record_id = "ripley";
  record_type = "npc";
  name = "ripley";
  raw_status = record { kind = missing; value = none };
  authority = preparation;
  summary = "No summary recorded.";
  content = ripley_text;
  content_digest = digest;
}

abbrev parsed : Parsed
parsed = record {
  campaign_name = "campaign_one";
  adapter_id = "mothership";
  records = crew ∷ ripley ∷ [];
  edges =
      record {
        edge_id = "edge_aaaaaaaaaaaaaaaaaaaaaaaaaaaaaaaaaaaaaaaaaaaaaaaaaaaaaaaaaaaaaaaa";
        occurrence_order = 1;
        source_record_id = "ripley";
        target_record_id = "crew";
        relationship = "member-of";
        state = "current";
        context = "signed on";
      }
      ∷ [];
}

snapshot_parsed : parse_records sha256 dumps fold decode loads manifest tree ≡ ok parsed
unfolding parse_records insert lookup sort codes_leb
snapshot_parsed = refl

parse_records-IsBound_example :
    (distinct (ids_of parsed.records) ≡ true) × All (IsBound (ids_of parsed.records)) parsed.edges
parse_records-IsBound_example =
    parse_records-IsBound sha256 dumps fold decode loads manifest tree parsed snapshot_parsed

lineage_found : lineage_through sha256 dumps_files world true manifest ≡ ok (manifest ∷ [])
unfolding lineage_through lookup verify canonicalize_tree sort codes_leb file_beq campaign_inventory
    keys values
lineage_found = refl

-- The revision is not projected while its intent is pending, unless that is allowed.
lineage_refused : lineage_through sha256 dumps_files world false manifest ≡ err snapshot_lineage
unfolding lineage_through lookup verify canonicalize_tree sort codes_leb file_beq campaign_inventory
    keys values
lineage_refused = refl

lineage_through-IsLine_example :
    IsLine true manifest world.repository 1 none (manifest ∷ [])
    × (distinct (revisions_of (manifest ∷ [])) ≡ true)
    × (ends_with_target manifest (manifest ∷ []) ≡ true)
    × (verify sha256 dumps_files (key_of manifest) world.store ≡ ok manifest)
lineage_through-IsLine_example =
    lineage_through-IsLine sha256 dumps_files world true manifest (manifest ∷ []) lineage_found

abbrev changes : List AtlasHistoryChange
unfolding added_change
changes = added_change manifest "crew" crew ∷ added_change manifest "ripley" ripley ∷ []

facets : facet_counts ("npc" ∷ "faction" ∷ "npc" ∷ []) ≡ ("faction", 1) ∷ ("npc", 2) ∷ []
unfolding facet_counts sort keys insert codes_leb lookup
facets = refl

abbrev no_proposal : String → String → Option (String × ℕ)
no_proposal campaign revision = none

abbrev digest_of : SnapshotManifest → Parsed → AtlasHistoryEntry → String
digest_of m p entry = digest

abbrev bundle : AtlasProjectionBundle
unfolding bundle_of entry_of
bundle = bundle_of 1 manifest parsed (entry_of manifest changes none) digest

bundle_built :
    build sha256 dumps_files dumps fold decode loads no_proposal digest_of world 1 true manifest
    ≡ ok bundle
unfolding build bundle_of entry_of lineage_through lookup verify canonicalize_tree sort codes_leb
    file_beq campaign_inventory keys values parse_records insert history_changes added_change dedup
    is_valid_bundle distinct
bundle_built = refl

build-IsProjection_example :
    (bundle.revision_id ≡ manifest.revision_id)
    × (bundle.tree_digest ≡ manifest.tree_digest)
    × IsProjection sha256 dumps_files dumps fold decode loads world true manifest bundle
build-IsProjection_example =
    build-IsProjection sha256 dumps_files dumps fold decode loads no_proposal digest_of world 1 true
      manifest bundle bundle_built
