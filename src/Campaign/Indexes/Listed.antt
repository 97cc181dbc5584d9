-- ===== src/Campaign/Indexes/Listed.antt =====
-- The file of the connection index: where it lists a connection.
use warden_drydock.Prelude.{String, ◌≡◌, List, ◌∷◌, ◌++◌, string_eq, All, Mem}
use warden_drydock.Prelude.Result.{Result}
use warden_drydock.Campaign.Text.{◌<>◌}
use warden_drydock.Campaign.Json.{Json}
use warden_drydock.Campaign.Graph.{Entity, Graph}
use warden_drydock.Campaign.Indexes.{rendered}

abbrev pub heading : Entity → String
heading e = "## [[" <> e.entity_id <> "|" <> e.name <> "]]"

-- An item of a list, and not a heading.
abbrev pub IsItem : String → Type 0
IsItem line = (rest : String) × (line ≡ "- " <> rest)

-- The text has the line among the items under the heading of the entity.
abbrev pub ListedUnder : String → Entity → String → Type 0
ListedUnder text e line =
    (before items after : List String) × (text
      ≡ rendered (before ++ (heading e ∷ "" ∷ (items ++ after))))
    × All IsItem items
    × Mem line items
