-- ===== src/Campaign/Rules.antt =====
-- standalone.py: the rules that an adapter declares for connections, and the errors for which a graph
-- is refused.
pub mod Accepted
use warden_drydock.Prelude.{
  ℕ, String, ◌≡◌, refl, Bool, true, false, List, [], ◌∷◌, ◌++◌, ◌&&◌, ◌||◌, not, Option, none, some,
  if◌then◌else◌, ◌==◌, string_eq, all, any, contains,
}
use warden_drydock.Prelude.Dict.{Dict, lookup}
use warden_drydock.Prelude.Result.{Result, ok, err}
use warden_drydock.Campaign.Text.{is_entity_id}
use warden_drydock.Campaign.Json.{
  Json, null, boolean, number, text, array, object, items, members, member, no_members,
}
use warden_drydock.Campaign.Connections.{Connection}
use warden_drydock.Campaign.Graph.{
  Entity, File, Graph, GraphError, missing_target, invalid_state, exposes, config_root,
  connections_not_object, bad_states, bad_relationships, invalid_adapter, graph,
}

-- `VALID_CONNECTION_STATES`, sorted
abbrev pub valid_connection_states : List String
valid_connection_states =
    "active" ∷ "believed" ∷ "confirmed" ∷ "current" ∷ "disputed" ∷ "former" ∷ "hidden" ∷ "inactive"
    ∷ "planned" ∷ "possible" ∷ "unknown" ∷ []

-- The texts of a list that holds nothing else.
unfoldable pub texts : List Json → Option (List String)
texts [] = some []
texts (text s ∷ js) = elim (texts js) [ none ↦ none | some ss ↦ some (s ∷ ss) ]
texts (_ ∷ js) = none

-- `len(set(xs)) == len(xs)`
unfoldable pub distinct : List String → Bool
distinct [] = true
distinct (x ∷ xs) = not (contains x xs) && distinct xs

is_nil : List String → Bool
is_nil [] = true
is_nil (x ∷ xs) = false

check_states : Option (List String) → List String × List GraphError
unfolding is_nil distinct is_entity_id
check_states none = (valid_connection_states, bad_states ∷ [])
check_states (some ss) =
    if not (is_nil ss) && all is_entity_id ss && distinct ss
    then (ss, [])
    else (valid_connection_states, bad_states ∷ [])

-- The value under "states", or the default where there is none.
unfoldable pub configured_states : Option Json → List String × List GraphError
unfolding check_states texts items
configured_states none = (valid_connection_states, [])
configured_states (some (array js)) = check_states (texts (items js))
configured_states (some _) = (valid_connection_states, bad_states ∷ [])

is_object : Json → Bool
is_object (object ms) = true
is_object _ = false

abbrev pub is_rule : String × Json → Bool
unfolding is_entity_id is_object
is_rule rule = is_entity_id rule.0 && is_object rule.1

-- The value under "relationships", or no rules where there is none.
unfoldable pub relationships : Option Json → Dict String Json × List GraphError
unfolding members
relationships none = ([], [])
relationships (some (object ms)) =
    if all is_rule (members ms) then (members ms, []) else ([], bad_relationships ∷ [])
relationships (some _) = ([], bad_relationships ∷ [])

-- The value under "connections", which is empty where it is missing.
connection_config : Option Json → Dict String Json × List GraphError
unfolding members
connection_config none = ([], [])
connection_config (some (object ms)) = (members ms, [])
connection_config (some _) = ([], connections_not_object ∷ [])

-- `_connection_rules`
unfoldable pub connection_rules :
    Dict String Json → List String × Dict String Json × List GraphError
unfolding connection_config configured_states relationships
connection_rules adapter =
    let (config, first) = connection_config (lookup "connections" adapter) in
    let (states, second) = configured_states (lookup "states" config) in
    let (vocabulary, third) = relationships (lookup "relationships" config) in
    (states, vocabulary, first ++ second ++ third)

-- A record that the players see names one that only the warden may see.
unfoldable pub leaks : Option Entity → Entity → Bool
leaks none target = false
leaks (some source) target = source.visibility == "players" && target.visibility == "warden"

unfoldable pub target_errors :
    List String → Connection → Option Entity → Option Entity → List GraphError
unfolding leaks
target_errors states c source none = missing_target c.path c.line c.target_id ∷ []
target_errors states c source (some target) =
    (if contains c.state states then [] else invalid_state c.path c.line c.state ∷ [])
    ++ (if leaks source target then exposes c.path c.line target.entity_id ∷ [] else [])

-- `_fatal_connection_errors`
unfoldable pub fatal_connection_errors :
    Dict String Entity → List String → List Connection → List GraphError
unfolding target_errors
fatal_connection_errors entities states [] = []
fatal_connection_errors entities states (c ∷ cs) =
    target_errors states c (lookup c.source_id entities) (lookup c.target_id entities)
    ++ fatal_connection_errors entities states cs

-- The files of a campaign that these commands read.
pub record Root : Type 0 where
  pub files : List File
  pub adapter : Option String

-- `_adapter_config`: nothing where the file is no JSON.
unfoldable pub adapter_config : (String → Option Json) → Option String → Option Json
adapter_config loads none = some (object (member "entity_types" (object no_members) no_members))
adapter_config loads (some s) = loads s

-- The object at the root of the configuration.
unfoldable pub config_object : Json → Dict String Json × List GraphError
unfolding members
config_object (object ms) = (members ms, [])
config_object _ = ([], config_root ∷ [])

unfoldable pub config_errors : Option Json → Graph → List GraphError
unfolding config_object connection_rules fatal_connection_errors
config_errors none g = invalid_adapter ∷ []
config_errors (some j) g =
    let (config, first) = config_object j in
    let (states, _, second) = connection_rules config in
    first ++ second ++ fatal_connection_errors g.entities states g.connections

unfoldable pub or_exit : Graph → List GraphError → Result (List GraphError) Graph
or_exit g [] = ok g
or_exit g (e ∷ es) = err (e ∷ es)

-- `_graph_or_exit`
unfoldable pub graph_or_exit :
    (String → String) → (String → Option Json) → Root → Result (List GraphError) Graph
unfolding graph adapter_config config_errors or_exit
graph_or_exit casefold loads root =
    let g = graph casefold loads root.files in
    or_exit g (g.errors ++ config_errors (adapter_config loads root.adapter) g)
