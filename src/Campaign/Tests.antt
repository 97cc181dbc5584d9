-- ===== src/Campaign/Tests.antt =====
-- Small campaigns on which the commands are run.
pub mod Indexed
pub mod Runs
use warden_drydock.Prelude.{
  ℕ, suc, ◌+◌, ◌-◌, ◌≤◌, String, ◌≡◌, refl, Bool, true, false, List, [], ◌∷◌, ◌++◌, Option, none,
  some, ◌↔◌, filter, map, contains, any, All, Mem, inl, inr, length, string_eq, ◌==◌,
}
use warden_drydock.Prelude.Dict.{lookup, insert, values}
use warden_drydock.Prelude.Sets.{distinct, dedup}
use warden_drydock.Prelude.Sort.{sort}
use warden_drydock.Prelude.Text.{codes_leb}
use warden_drydock.Prelude.Result.{Result, ok, err}
use warden_drydock.Campaign.Text.{
  dashes_to_spaces, is_entity_id, normalize_newlines, all_chars, decimal, is_space,
}
use warden_drydock.Campaign.Json.{Json, null, text, integer, number}
use warden_drydock.Campaign.Connections.{
  not_bracket, Parts, Connection, match_connection, parse_connections, section_lines,
}
use warden_drydock.Campaign.Connections.Printed.{connection_line, match_connection-connection_line}
use warden_drydock.Campaign.Frontmatter.{frontmatter, body, is_string_key}
use warden_drydock.Campaign.Frontmatter.Laws.{IsTextual, frontmatter-IsTextual}
use warden_drydock.Campaign.Newlines.{to_crlf, not_return, frontmatter-to_crlf}
use warden_drydock.Campaign.Graph.{
  File, Entity, Graph, graph, collect_entities, duplicate_entity, file_leb,
}
use warden_drydock.Campaign.Graph.Collected.{
  declared, first_with, reported, collect_entities-firsts,
}
use warden_drydock.Campaign.Rules.{Root, graph_or_exit, adapter_config}
use warden_drydock.Campaign.Rules.Accepted.{IsSound, states_of, graph_or_exit-IsSound}
use warden_drydock.Campaign.Related.{related_entities, is_known, ordered_ids, pos}
use warden_drydock.Campaign.Related.Within.{Within}
use warden_drydock.Campaign.Related.Listed.{related_entities-Within}

abbrev pub fold : String → String
fold s = s

-- A reader of values that knows one number.
abbrev pub loads : String → Option Json
loads s = if_number (s == "7")
  where
    if_number : Bool → Option Json
    if_number true = some (number (integer "7"))
    if_number false = none

abbrev line_parts : Parts
line_parts = record {
  relationship = "member-of";
  target = "blue-crew";
  state = "current";
  context = "signed on";
}

connection_line_shown :
    connection_line (λ s. s) line_parts
    ≡ "- `member-of` → [[blue-crew|blue crew]] (`current`) — signed on"
unfolding connection_line
connection_line_shown = refl

match_connection-connection_line_example :
    match_connection (connection_line (λ s. s) line_parts) ≡ some line_parts
unfolding is_entity_id all_chars is_space dashes_to_spaces not_bracket
match_connection-connection_line_example =
    match_connection-connection_line (λ s. s) line_parts refl refl refl refl refl refl refl

abbrev note : String
note = "---\nid: ripley\nname: \"Ellen\"\nage: 7\n---\n\nText.\n"

note_read :
    frontmatter loads note
    ≡ ("id", text "ripley") ∷ ("name", text "Ellen") ∷ ("age", number (integer "7")) ∷ []
unfolding frontmatter insert
note_read = refl

body-note : body note ≡ "Text."
unfolding body
body-note = refl

frontmatter-IsTextual_example : IsTextual (lookup "name" (frontmatter loads note))
unfolding is_string_key
frontmatter-IsTextual_example = frontmatter-IsTextual loads "name" refl note

frontmatter-to_crlf_example :
    (frontmatter loads (to_crlf note) ≡ frontmatter loads note)
    × (body (to_crlf note) ≡ body note)
    × (section_lines fold (to_crlf note) "Connections" ≡ section_lines fold note "Connections")
    × (parse_connections fold (to_crlf note) "ripley" "a.md"
        ≡ parse_connections fold note "ripley" "a.md")
unfolding all_chars
frontmatter-to_crlf_example = frontmatter-to_crlf fold loads note "ripley" "a.md" "Connections" refl

abbrev pub ripley : File
ripley = record {
  parts = "03-npcs" ∷ "ripley.md" ∷ [];
  content =
      "---\nid: ripley\ntype: npc\nvisibility: players\n---\n\n## Connections\n- `member-of` → [[crew|Crew]] (`current`) — signed on\n";
}

abbrev pub crew : File
crew = record {
  parts = "04-factions" ∷ "crew.md" ∷ [];
  content =
      "---\nid: crew\ntype: faction\nvisibility: players\n---\n\n## Connections\n- `aboard` -> [[ship]] (`current`) — until docking\n";
}

abbrev pub ship : File
ship = record {
  parts = "05-places" ∷ "ship.md" ∷ [];
  content = "---\nid: ship\ntype: place\nvisibility: players\n---\n";
}

abbrev again : File
again = record { parts = "09-other" ∷ "ship.md" ∷ []; content = "---\nid: ship\n---\n" }

abbrev pub root : Root
root = record { files = ship ∷ ripley ∷ crew ∷ []; adapter = none }

abbrev pub sample : Graph
unfolding graph
sample = graph fold loads (ship ∷ ripley ∷ crew ∷ [])

pub sample_accepted : graph_or_exit fold loads root ≡ ok sample
unfolding graph_or_exit graph sample sort codes_leb lookup insert values
sample_accepted = refl

-- With two files of one ID the graph is refused.
sample_refused :
    graph_or_exit fold loads (record { files = again ∷ ship ∷ []; adapter = none })
    ≡ err (duplicate_entity "ship" "05-places/ship.md" "09-other/ship.md" ∷ [])
unfolding graph_or_exit sort codes_leb lookup insert values
sample_refused = refl

collect_entities-firsts_example :
    let es = declared loads (sort file_leb (again ∷ ship ∷ ripley ∷ [])) in
    let found = collect_entities loads (again ∷ ship ∷ ripley ∷ []) in
    ((k : String) → lookup k found.0 ≡ first_with k es) × (found.1 ≡ reported [] es)
collect_entities-firsts_example = collect_entities-firsts loads (again ∷ ship ∷ ripley ∷ [])

graph_or_exit-IsSound_example :
    (j : Json) × (adapter_config loads root.adapter ≡ some j)
    × (sample.errors ≡ [])
    × All (IsSound sample.entities (states_of j)) sample.connections
graph_or_exit-IsSound_example = graph_or_exit-IsSound fold loads root sample sample_accepted

related_shown : ordered_ids sample "ripley" 1 ≡ "ripley" ∷ "crew" ∷ []
unfolding sample ordered_ids filter dedup sort codes_leb lookup insert values
related_shown = refl

related_entities-Within_example :
    (es : List Entity) × (related_entities fold loads root "ripley" (pos 2) ≡ ok es)
    × (map (λ e. e.entity_id) es ≡ ordered_ids sample "ripley" 2)
    × (distinct (map (λ e. e.entity_id) es) ≡ true)
    × ((x : String) → (contains x (map (λ e. e.entity_id) es) ≡ true) ↔ Within sample "ripley" 2 x)
unfolding sample sort codes_leb lookup insert
related_entities-Within_example =
    related_entities-Within fold loads root sample "ripley" 2 sample_accepted refl
