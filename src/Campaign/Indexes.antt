-- ===== src/Campaign/Indexes.antt =====
-- standalone.py: `_summary` and `build_indexes`, the generated indexes of entities and connections.
-- `title` is Python's `str.title`.
pub mod Grouped
pub mod Listed
use warden_drydock.Prelude.{
  ℕ, String, Bool, true, false, List, [], ◌∷◌, ◌++◌, ◌&&◌, ◌||◌, not, Option, none, some, map,
  filter, if◌then◌else◌, ◌==◌, string_eq,
}
use warden_drydock.Prelude.Dict.{Dict, lookup, insert, values, keys}
use warden_drydock.Prelude.Sets.{dedup}
use warden_drydock.Prelude.Sort.{sort}
use warden_drydock.Prelude.Text.{str_leb}
use warden_drydock.Prelude.Result.{Result, ok, err, ◌>>=◌}
use warden_drydock.Campaign.Text.{
  strip, rstrip, starts_with, is_empty, join, ◌<>◌, dashes_to_spaces,
}
use warden_drydock.Campaign.Json.{Json}
use warden_drydock.Campaign.Connections.{Connection, section_lines}
use warden_drydock.Campaign.Graph.{Entity, Graph, GraphError, File, as_posix}
use warden_drydock.Campaign.Rules.{Root, graph_or_exit}
use warden_drydock.Campaign.Related.{Failure, or_refused}

-- The lines that are neither blank nor a comment from their first character on.
summary_lines : List (ℕ × String) → List String
unfolding strip starts_with
summary_lines [] = []
summary_lines ((_, line) ∷ ls) =
    let rest = summary_lines ls in
    if not (is_empty (strip line)) && not (starts_with "<!--" line) then strip line ∷ rest else rest

-- `text or default`
unfoldable pub text_or : String → String → String
text_or d s = if is_empty s then d else s

unfoldable pub summary : (String → String) → Entity → String
unfolding summary_lines section_lines join text_or
summary casefold e =
    text_or "No summary recorded."
      (join " " (summary_lines (section_lines casefold e.content "Summary")))

abbrev pub or_nil : Option (List Connection) → List Connection
or_nil none = []
or_nil (some cs) = cs

-- `mapping.setdefault(key, []).append(connection)`
unfoldable pub append_at :
    String → Connection → Dict String (List Connection) → Dict String (List Connection)
append_at key c d = insert key (or_nil (lookup key d) ++ c ∷ []) d

unfoldable pub grouped :
    (Connection → String)
    → List Connection
    → Dict String (List Connection)
    → Dict String (List Connection)
unfolding append_at
grouped key [] d = d
grouped key (c ∷ cs) d = grouped key cs (append_at (key c) c d)

-- `{key: [] for key in entities}`
unfoldable pub empty_groups : List String → Dict String (List Connection)
empty_groups [] = []
empty_groups (k ∷ ks) = (k, []) ∷ empty_groups ks

abbrev pub outgoing : Graph → Dict String (List Connection)
unfolding grouped empty_groups
outgoing g = grouped (λ c. c.source_id) g.connections (empty_groups (keys g.entities))

abbrev pub incoming : Graph → Dict String (List Connection)
unfolding grouped empty_groups
incoming g = grouped (λ c. c.target_id) g.connections (empty_groups (keys g.entities))

-- `mapping.get(key, [])`
unfoldable pub group_at : String → Dict String (List Connection) → List Connection
group_at key d = or_nil (lookup key d)

-- The order of pairs of texts.
pair_leb : String → String → String → String → Bool
pair_leb a b c d = if a == c then str_leb b d else str_leb a c

pub by_target : Connection → Connection → Bool
unfolding pair_leb
by_target c d = pair_leb c.relationship c.target_id d.relationship d.target_id

pub by_source : Connection → Connection → Bool
unfolding pair_leb
by_source c d = pair_leb c.relationship c.source_id d.relationship d.source_id

pub by_id : Entity → Entity → Bool
by_id e f = str_leb e.entity_id f.entity_id

is_past : String → Bool
is_past state = state == "former" || state == "inactive"

link : Connection → String
link c = c.relationship <> " [[" <> c.target_id <> "]]"

links : Graph → Entity → String
unfolding link is_past by_target group_at
links g e = join "; " (
    map link
      (filter (λ c. not (is_past c.state)) (sort by_target (group_at e.entity_id (outgoing g)))))

entity_line : (String → String) → Graph → Entity → String
unfolding links summary
entity_line casefold g e =
    "- [["
    <> e.entity_id
    <> "|"
    <> e.name
    <> "]] — "
    <> e.status
    <> "; "
    <> summary casefold e
    <> (if is_empty (links g e) then "" else " Connections: " <> links g e <> ".")
    <> " Source: `"
    <> e.path
    <> "`"

-- The heading of a type and the lines of its entities.
type_lines : (String → String) → (String → String) → Graph → String → List String
unfolding entity_line by_id
type_lines casefold title g t =
    ("## " <> title (dashes_to_spaces t))
      ∷ ""
      ∷ map (entity_line casefold g)
          (sort by_id (filter (λ e. e.entity_type == t) (values g.entities)))
    ++ "" ∷ []

all_type_lines : (String → String) → (String → String) → Graph → List String → List String
unfolding type_lines
all_type_lines casefold title g [] = []
all_type_lines casefold title g (t ∷ ts) =
    type_lines casefold title g t ++ all_type_lines casefold title g ts

-- `"\n".join(lines).rstrip() + "\n"`
unfoldable pub rendered : List String → String
unfolding rstrip join
rendered lines = rstrip (join "\n" lines) <> "\n"

unfoldable pub entity_index : (String → String) → (String → String) → Graph → String
unfolding rendered all_type_lines
entity_index casefold title g = rendered (
    "# Entity Index"
    ∷ ""
    ∷ "> Generated by Warden Drydock. Do not edit manually."
    ∷ ""
    ∷ all_type_lines casefold title g
        (sort str_leb (dedup (map (λ e. e.entity_type) (values g.entities)))))

unfoldable pub outgoing_line : Connection → String
outgoing_line c =
    "- outgoing `" <> c.relationship <> "` → [[" <> c.target_id <> "]] (`" <> c.state <> "`) — "
    <> c.context

unfoldable pub backlink_line : Connection → String
backlink_line c =
    "- backlink `" <> c.relationship <> "` ← [[" <> c.source_id <> "]] (`" <> c.state <> "`) — "
    <> c.context

unfoldable pub or_none_recorded : List String → List String
or_none_recorded [] = "- No explicit connections." ∷ []
or_none_recorded (l ∷ ls) = l ∷ ls

-- The connections of one entity, outgoing first.
unfoldable pub connection_lines : Graph → Entity → List String
unfolding outgoing_line backlink_line by_target by_source group_at
connection_lines g e =
    map outgoing_line (sort by_target (group_at e.entity_id (outgoing g)))
    ++ map backlink_line (sort by_source (group_at e.entity_id (incoming g)))

unfoldable pub entity_section : Graph → Entity → List String
unfolding connection_lines or_none_recorded
entity_section g e =
    ("## [[" <> e.entity_id <> "|" <> e.name <> "]]") ∷ "" ∷ or_none_recorded (connection_lines g e)
    ++ "" ∷ []

unfoldable pub entity_sections : Graph → List Entity → List String
unfolding entity_section
entity_sections g [] = []
entity_sections g (e ∷ es) = entity_section g e ++ entity_sections g es

unfoldable pub connection_index : Graph → String
unfolding rendered entity_sections by_id
connection_index g = rendered (
    "# Connection Index"
    ∷ ""
    ∷ "> Generated by Warden Drydock. Backlinks are derived; edit source records instead."
    ∷ ""
    ∷ entity_sections g (sort by_id (values g.entities)))

-- `write_text`: a file at these parts holds this text from now on.
unfoldable pub write_file : List String → String → List File → List File
write_file parts content [] = record { parts = parts; content = content } ∷ []
write_file parts content (f ∷ fs) =
    let rest = write_file parts content fs in
    if as_posix f.parts == as_posix parts
    then record { parts = parts; content = content } ∷ fs
    else f ∷ rest

abbrev pub entity_index_path : List String
entity_index_path = "00-drydock" ∷ "entity-index.md" ∷ []

abbrev pub connection_index_path : List String
connection_index_path = "00-drydock" ∷ "connection-index.md" ∷ []

-- `build_indexes`: the root with both indexes written, or the refusal of its graph.
unfoldable pub build_indexes :
    (String → String) → (String → String) → (String → Option Json) → Root → Result Failure Root
unfolding graph_or_exit or_refused entity_index connection_index write_file
build_indexes casefold title loads root = or_refused (graph_or_exit casefold loads root) >>= λ g.
    ok (record root {
      files =
          write_file connection_index_path (connection_index g)
            (write_file entity_index_path (entity_index casefold title g) root.files);
    })
