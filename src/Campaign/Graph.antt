-- ===== src/Campaign/Graph.antt =====
-- standalone.py: the entities of a campaign, and the graph of their connections.
pub mod Collected
use warden_drydock.Prelude.{
  ℕ, String, ◌≡◌, refl, Bool, true, false, List, [], ◌∷◌, ◌++◌, ◌&&◌, ◌||◌, not, Option, none, some,
  if◌then◌else◌, ◌==◌, string_eq,
}
use warden_drydock.Prelude.Dict.{Dict, lookup, insert, values}
use warden_drydock.Prelude.Sort.{sort}
use warden_drydock.Prelude.Text.{str_leb}
use warden_drydock.Campaign.Text.{starts_with, join, is_empty}
use warden_drydock.Campaign.Json.{Json}
use warden_drydock.Campaign.Connections.{
  Connection, ParseError, malformed_connection, parse_connections,
}
use warden_drydock.Campaign.Frontmatter.{frontmatter, text_field}

-- A Markdown file under the root: the parts of its relative path, and its text.
pub record File : Type 0 where
  pub parts : List String
  pub content : String

abbrev pub as_posix : List String → String
as_posix parts = join "/" parts

pub record Entity : Type 0 where
  pub entity_id : String
  pub entity_type : String
  pub name : String
  pub status : String
  pub visibility : String
  pub path : String
  pub content : String

-- The messages that the source writes as text.
pub data GraphError : Type 0 where
  duplicate_entity : String → String → String → GraphError
  parse_error : ParseError → GraphError
  missing_target : String → ℕ → String → GraphError
  invalid_state : String → ℕ → String → GraphError
  exposes : String → ℕ → String → GraphError
  config_root connections_not_object bad_states bad_relationships invalid_adapter : GraphError

-- The order of paths, which compares them part by part.
unfoldable pub parts_leb : List String → List String → Bool
parts_leb [] q = true
parts_leb (a ∷ p) [] = false
parts_leb (a ∷ p) (b ∷ q) = let rest = parts_leb p q in if a == b then rest else str_leb a b

pub file_leb : File → File → Bool
unfolding parts_leb
file_leb f g = parts_leb f.parts g.parts

first_part : List String → String
first_part [] = ""
first_part (p ∷ ps) = p

-- Templates, documentation and the campaign's own directory hold no entities.
unfoldable pub is_ignored : File → Bool
unfolding first_part starts_with join
is_ignored f =
    first_part f.parts == "templates"
    || first_part f.parts == "docs"
    || starts_with "00-drydock/" (as_posix f.parts)

unfoldable pub or_default : String → Option String → String
or_default d none = d
or_default d (some s) = s

-- `metadata.get("name") or entity_id`
unfoldable pub or_else : String → Option String → String
or_else d none = d
or_else d (some s) = if is_empty s then d else s

unfoldable pub entity_of : String → Dict String Json → File → Entity
unfolding text_field or_default or_else
entity_of id metadata f = record {
  entity_id = id;
  entity_type = or_default "unknown" (text_field "type" metadata);
  name = or_else id (text_field "name" metadata);
  status = or_default "unknown" (text_field "status" metadata);
  visibility = or_default "warden" (text_field "visibility" metadata);
  path = as_posix f.parts;
  content = f.content;
}

abbrev pub Collected : Type 0
Collected = Dict String Entity × List GraphError

-- The entity that has the ID already, if one has.
unfoldable pub add_or_report : String → Entity → Option Entity → Collected → Collected
add_or_report id e none c = (insert id e c.0, c.1)
add_or_report id e (some first) c = (c.0, c.1 ++ duplicate_entity id first.path e.path ∷ [])

unfoldable pub add_entity : Option String → Dict String Json → File → Collected → Collected
unfolding add_or_report entity_of
add_entity none metadata f c = c
add_entity (some id) metadata f c =
    if is_empty id then c else add_or_report id (entity_of id metadata f) (lookup id c.0) c

module _ (loads : String → Option Json) where
  unfoldable pub collect_file : File → Collected → Collected
  unfolding is_ignored add_entity frontmatter text_field
  collect_file f c =
      let metadata = frontmatter loads f.content in
      if is_ignored f then c else add_entity (text_field "id" metadata) metadata f c

  unfoldable pub collect_files : List File → Collected → Collected
  unfolding collect_file
  collect_files [] c = c
  collect_files (f ∷ fs) c = collect_files fs (collect_file f c)

  -- `_collect_entities`
  unfoldable pub collect_entities : List File → Collected
  unfolding collect_files file_leb
  collect_entities files = collect_files (sort file_leb files) ([], [])

parse_errors : List ParseError → List GraphError
parse_errors [] = []
parse_errors (e ∷ es) = parse_error e ∷ parse_errors es

-- The connections of each entity in turn, with what could not be parsed.
unfoldable pub connections_of : (String → String) → List Entity → List Connection × List GraphError
unfolding parse_connections parse_errors
connections_of casefold [] = ([], [])
connections_of casefold (e ∷ es) =
    let (cs, failures) = parse_connections casefold e.content e.entity_id e.path in
    let (more, errors) = connections_of casefold es in (cs ++ more, parse_errors failures ++ errors)

pub record Graph : Type 0 where
  pub entities : Dict String Entity
  pub connections : List Connection
  pub errors : List GraphError

-- `_graph`
unfoldable pub graph : (String → String) → (String → Option Json) → List File → Graph
unfolding collect_entities connections_of
graph casefold loads files =
    let (entities, duplicates) = collect_entities loads files in
    let (connections, failures) = connections_of casefold (values entities) in
    record { entities = entities; connections = connections; errors = duplicates ++ failures }
