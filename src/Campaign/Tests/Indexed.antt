-- ===== src/Campaign/Tests/Indexed.antt =====
-- The indexes of the small campaign.
use warden_drydock.Prelude.{String, string_eq}
use warden_drydock.Campaign.Connections.{Connection}
use warden_drydock.Campaign.Frontmatter.{frontmatter}
use warden_drydock.Campaign.Graph.{File, Entity, entity_of}
use warden_drydock.Campaign.Rules.{Root}
use warden_drydock.Campaign.Indexes.{
  entity_index, connection_index, write_file, entity_index_path, connection_index_path,
}
use warden_drydock.Campaign.Tests.{fold, loads, root, sample}

abbrev aboard : Connection
aboard = record {
  source_id = "crew";
  target_id = "ship";
  relationship = "aboard";
  state = "current";
  context = "until docking";
  path = "04-factions/crew.md";
  line = 8;
}

abbrev entity_at : String → File → Entity
unfolding entity_of
entity_at id f = entity_of id (frontmatter loads f.content) f

abbrev indexed : Root
indexed = record root {
  files =
      write_file connection_index_path (connection_index sample)
        (write_file entity_index_path (entity_index fold fold sample) root.files);
}
