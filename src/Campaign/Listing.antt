-- ===== src/Campaign/Listing.antt =====
-- standalone.py: the commands that print what they find.
use warden_drydock.Prelude.{
  String, Bool, true, false, List, [], ◌∷◌, ◌++◌, ◌&&◌, ◌||◌, not, Option, none, some, map, filter,
  contains, length, if◌then◌else◌, ◌==◌, string_eq,
}
use warden_drydock.Prelude.Dict.{Dict, lookup, values}
use warden_drydock.Prelude.Sort.{sort}
use warden_drydock.Prelude.Text.{str_leb}
use warden_drydock.Prelude.Result.{Result, ok, err, ◌>>=◌}
use warden_drydock.Campaign.Text.{is_empty, contains_text, ◌<>◌, decimal}
use warden_drydock.Campaign.Json.{
  Json, null, boolean, number, text, array, object, Number, integer, float,
}
use warden_drydock.Campaign.Connections.{Connection}
use warden_drydock.Campaign.Frontmatter.{frontmatter, frontmatter_text}
use warden_drydock.Campaign.Graph.{Entity, Graph, GraphError, collect_entities}
use warden_drydock.Campaign.Rules.{Root, graph_or_exit}
use warden_drydock.Campaign.Related.{
  Failure, unknown_entity, refused, or_refused, related_entities, is_known, ℤ,
}
use warden_drydock.Campaign.Indexes.{summary}

or_collected : Dict String Entity → List GraphError → Result Failure (Dict String Entity)
or_collected entities [] = ok entities
or_collected entities (e ∷ es) = err (refused (e ∷ es))

-- `_entities`
unfoldable pub entities : (String → Option Json) → Root → Result Failure (Dict String Entity)
unfolding or_collected collect_entities
entities loads root =
    let (found, errors) = collect_entities loads root.files in or_collected found errors

by_id : Entity → Entity → Bool
by_id e f = str_leb e.entity_id f.entity_id

unfoldable pub entity_row : Entity → String
entity_row e = e.entity_id <> "\t" <> e.entity_type <> "\t" <> e.name <> "\t" <> e.path

unfoldable pub matches : (String → String) → String → Entity → Bool
unfolding contains_text summary
matches casefold query e =
    is_empty query
    || contains_text (casefold query) (casefold e.entity_id)
    || contains_text (casefold query) (casefold e.name)
    || contains_text (casefold query) (casefold (summary casefold e))

-- `print_entities`
unfoldable pub find_entities :
    (String → String) → (String → Option Json) → Root → String → Result Failure (List String)
unfolding entities matches by_id entity_row
find_entities casefold loads root query = entities loads root >>= λ d.
    ok (map entity_row (sort by_id (filter (matches casefold query) (values d))))

unfoldable pub print_related :
    (String → String) → (String → Option Json) → Root → String → ℤ → Result Failure (List String)
unfolding related_entities entity_row
print_related casefold loads root focus depth =
    related_entities casefold loads root focus depth >>= λ es. ok (map entity_row es)

content_of : Option Entity → Result Failure (List String)
content_of none = err unknown_entity
content_of (some e) = ok (e.content ∷ [])

-- `print_entity`
unfoldable pub show_entity : (String → Option Json) → Root → String → Result Failure (List String)
unfolding entities content_of
show_entity loads root id = entities loads root >>= λ d. content_of (lookup id d)

unfoldable pub backlink_rows : String → List Connection → List String
backlink_rows focus [] = []
backlink_rows focus (c ∷ cs) =
    let rest = backlink_rows focus cs in
    if c.target_id == focus
    then (c.source_id <> "\t" <> c.relationship <> "\t" <> c.state <> "\t" <> c.context) ∷ rest
    else rest

-- `print_backlinks`
unfoldable pub print_backlinks :
    (String → String) → (String → Option Json) → Root → String → Result Failure (List String)
unfolding graph_or_exit or_refused backlink_rows
print_backlinks casefold loads root focus = or_refused (graph_or_exit casefold loads root) >>= λ g.
    if is_known g focus then ok (backlink_rows focus g.connections) else err unknown_entity

is_historical : String → Bool
is_historical t = contains t ("session" ∷ "debrief" ∷ "faction-turn" ∷ "consequence" ∷ [])

-- The row of a connection to the focus, by its source.
history_row : Connection → Option Entity → List String
unfolding is_historical
history_row c none = []
history_row c (some e) =
    if is_historical e.entity_type
    then (e.entity_id <> "\t" <> c.relationship <> "\t" <> c.context <> "\t" <> e.path) ∷ []
    else []

unfoldable pub history_rows : Graph → String → List Connection → List String
unfolding history_row
history_rows g focus [] = []
history_rows g focus (c ∷ cs) =
    let rest = history_rows g focus cs in
    if c.target_id == focus then history_row c (lookup c.source_id g.entities) ++ rest else rest

-- `print_history`
unfoldable pub print_history :
    (String → String) → (String → Option Json) → Root → String → Result Failure (List String)
unfolding graph_or_exit or_refused history_rows
print_history casefold loads root focus = or_refused (graph_or_exit casefold loads root) >>= λ g.
    if is_known g focus then ok (history_rows g focus g.connections) else err unknown_entity

-- `raw and raw != "[]"`. The spelling of zero is what `str` makes of it.
number_counts : Number → Bool
number_counts (integer s) = not (s == "0")
number_counts (float finite (some whole) repr) = not (whole == "0")
number_counts (float finite none repr) = true

unfoldable pub counts : Option Json → Bool
unfolding number_counts
counts none = false
counts (some null) = false
counts (some (boolean b)) = b
counts (some (number n)) = number_counts n
counts (some (text s)) = not (is_empty s) && not (s == "[]")
counts (some (array js)) = true
counts (some (object ms)) = true

-- The fields that older campaigns hold connections in.
abbrev pub legacy_fields : List (String × String)
legacy_fields =
    ("factions", "affiliated-with") ∷ ("locations", "located-at") ∷ ("characters", "features") ∷ []

raw_text : (Json → String) → Option Json → String
unfolding frontmatter_text
raw_text str none = ""
raw_text str (some j) = str j

-- The proposals of one entity.
proposals_of : (Json → String) → Entity → Dict String Json → List (String × String) → List String
unfolding counts raw_text
proposals_of str e metadata [] = []
proposals_of str e metadata ((field, relationship) ∷ fs) =
    let rest = proposals_of str e metadata fs in
    if counts (lookup field metadata)
    then ("PROPOSED "
        <> e.path
        <> ": "
        <> e.entity_id
        <> " --"
        <> relationship
        <> "--> "
        <> raw_text str (lookup field metadata)
        <> "; evidence: legacy frontmatter field "
        <> field
        <> "; review required")
      ∷ rest
    else rest

all_proposals : (Json → String) → (String → Option Json) → List Entity → List String
unfolding proposals_of frontmatter
all_proposals str loads [] = []
all_proposals str loads (e ∷ es) =
    proposals_of str e (frontmatter loads e.content) legacy_fields ++ all_proposals str loads es

-- `audit_connections`: what it prints, its count last. `str` is Python's.
unfoldable pub audit_connections :
    (Json → String) → (String → Option Json) → Root → Result Failure (List String)
unfolding entities all_proposals decimal
audit_connections str loads root = entities loads root >>= λ d.
    let found = all_proposals str loads (values d) in
    ok (
      found
      ++ ("Found "
          <> decimal (length found)
          <> " explicit legacy connection proposal(s); no campaign files changed.")
        ∷ [])
