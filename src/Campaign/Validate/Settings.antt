-- ===== src/Campaign/Validate/Settings.antt =====
-- standalone.py: the part of `validate_campaign` that reads the configuration of the adapter.
use warden_drydock.Prelude.{
  String, Bool, true, false, List, [], ◌∷◌, ◌++◌, ◌&&◌, ◌||◌, not, Option, none, some, all,
  if◌then◌else◌, string_eq,
}
use warden_drydock.Prelude.Dict.{Dict, lookup}
use warden_drydock.Campaign.Text.{is_empty, ◌<>◌, contains_text}
use warden_drydock.Campaign.Json.{Json, text, array, object, items, members}
use warden_drydock.Campaign.Graph.{GraphError}
use warden_drydock.Campaign.Rules.{texts, connection_rules, config_object, valid_connection_states}
use warden_drydock.Campaign.Validate.Metadata.{is_unsafe}

-- A message, or an error of the graph with its own text.
pub data Problem : Type 0 where
  message : String → Problem
  graph_problem : GraphError → Problem

unfoldable pub messages : List String → List Problem
messages [] = []
messages (s ∷ ss) = message s ∷ messages ss

unfoldable pub graph_problems : List GraphError → List Problem
graph_problems [] = []
graph_problems (e ∷ es) = graph_problem e ∷ graph_problems es

-- `not isinstance(value, str) or not value`
is_blank_text : Option Json → Bool
is_blank_text (some (text s)) = is_empty s
is_blank_text _ = true

-- `bool(mapping)`
is_filled : Dict String Json → Bool
is_filled [] = false
is_filled (p ∷ d) = true

-- A non-empty list of texts
text_list : Json → Option (List String)
unfolding texts items
text_list (array js) = elim (texts (items js)) [ none ↦ none | some ss ↦ some ss ]
text_list _ = none

is_value_list : Json → Bool
unfolding text_list
is_value_list j = elim (text_list j) [
  | none ↦ false
  | some ss ↦ elim ss [ [] ↦ false | s ∷ rest ↦ true ]
]

or_texts : Option (List String) → List String
or_texts none = []
or_texts (some ss) = ss

allowed_values : List (String × Json) → List (String × List String)
unfolding text_list or_texts
allowed_values [] = []
allowed_values ((field, j) ∷ d) = (field, or_texts (text_list j)) ∷ allowed_values d

-- `validation.field_values`
field_values_of : Option Json → List (String × List String) × List String
unfolding is_value_list allowed_values members
field_values_of none = ([], [])
field_values_of (some (object ms)) =
    if all (λ p. is_value_list p.1) (members ms) then (allowed_values (members ms), []) else (
      [],
      "00-drydock/adapter.json: validation.field_values must map fields to non-empty string lists"
          ∷ [],
    )
field_values_of (some _) = (
  [],
  "00-drydock/adapter.json: validation.field_values must map fields to non-empty string lists" ∷ [],
)

-- The pairs of an object whose values are texts.
unfoldable pub text_pairs : List (String × Json) → Option (List (String × String))
text_pairs [] = some []
text_pairs ((field, text s) ∷ d) = elim (text_pairs d) [
  | none ↦ none
  | some ps ↦ some ((field, s) ∷ ps)
]
text_pairs (_ ∷ d) = none

combination_of : Json → Option (List (String × String))
unfolding text_pairs members
combination_of (object ms) = if is_filled (members ms) then text_pairs (members ms) else none
combination_of _ = none

combinations_of : List Json → Option (List (List (String × String)))
unfolding combination_of
combinations_of [] = some []
combinations_of (j ∷ js) = elim (combination_of j) [
  | none ↦ none
  | some c ↦ elim (combinations_of js) [ none ↦ none | some cs ↦ some (c ∷ cs) ]
]

or_combinations :
    Option (List (List (String × String))) → List (List (String × String)) × List String
or_combinations none = (
  [],
  "00-drydock/adapter.json: validation.forbidden_combinations must be a list of field-value objects"
      ∷ [],
)
or_combinations (some cs) = (cs, [])

-- `validation.forbidden_combinations`
forbidden_of : Option Json → List (List (String × String)) × List String
unfolding combinations_of or_combinations items
forbidden_of none = ([], [])
forbidden_of (some (array js)) = or_combinations (combinations_of (items js))
forbidden_of (some _) = or_combinations none

is_bad_path : Option Json → Bool
unfolding is_unsafe
is_bad_path (some (text s)) = is_empty s || is_unsafe s
is_bad_path _ = true

-- A destination that is a text must name the ID.
names_no_id : Option Json → Bool
unfolding contains_text
names_no_id (some (text s)) = not (contains_text "{id}" s)
names_no_id _ = false

is_text_object : Option Json → Bool
unfolding text_pairs members
is_text_object none = true
is_text_object (some (object ms)) = elim (text_pairs (members ms)) [ none ↦ false | some ps ↦ true ]
is_text_object (some _) = false

is_text_list : Option Json → Bool
unfolding text_list
is_text_list none = true
is_text_list (some j) = elim (text_list j) [ none ↦ false | some ss ↦ true ]

unfoldable pub when : Bool → String → List String
when true s = s ∷ []
when false s = []

rule_errors : String → Dict String Json → List String
unfolding is_bad_path names_no_id is_text_object is_text_list when
rule_errors t rule =
    when (is_bad_path (lookup "template" rule))
      ("00-drydock/adapter.json: " <> t <> ".template is unsafe")
    ++ when (is_bad_path (lookup "destination" rule))
        ("00-drydock/adapter.json: " <> t <> ".destination is unsafe")
    ++ when (names_no_id (lookup "destination" rule))
        ("00-drydock/adapter.json: " <> t <> ".destination must contain {id}")
    ++ when (not (is_text_object (lookup "required_values" rule)))
        ("00-drydock/adapter.json: " <> t <> ".required_values must be a field-value object")
    ++ when (not (is_text_list (lookup "required_fields" rule)))
        ("00-drydock/adapter.json: " <> t <> ".required_fields must be a string list")
    ++ when (not (is_text_list (lookup "nonempty_fields" rule)))
        ("00-drydock/adapter.json: " <> t <> ".nonempty_fields must be a string list")
    ++ when (not (is_text_list (lookup "forbidden_headings" rule)))
        ("00-drydock/adapter.json: " <> t <> ".forbidden_headings must be a string list")

types_errors : List (String × Json) → List String
unfolding rule_errors members
types_errors [] = []
types_errors ((t, object ms) ∷ ts) = rule_errors t (members ms) ++ types_errors ts
types_errors ((t, _) ∷ ts) =
    ("00-drydock/adapter.json: entity type " <> t <> " must be an object") ∷ types_errors ts

-- An object under a key, which is empty where it is missing.
object_at : String → Option Json → Dict String Json × List String
unfolding members
object_at name none = ([], [])
object_at name (some (object ms)) = (members ms, [])
object_at name (some _) = ([], ("00-drydock/adapter.json: " <> name <> " must be an object") ∷ [])

is_legacy_rule : Json → Bool
unfolding is_blank_text members
is_legacy_rule (object ms) =
    not (is_blank_text (lookup "path" (members ms)))
    && not (is_blank_text (lookup "canonical" (members ms)))
is_legacy_rule _ = false

-- `legacy_paths`
legacy_of : Option Json → List Json × List String
unfolding is_legacy_rule items
legacy_of none = ([], [])
legacy_of (some (array js)) =
    if all is_legacy_rule (items js)
    then (items js, [])
    else ([], "00-drydock/adapter.json: legacy_paths must declare path and canonical" ∷ [])
legacy_of (some _) =
    ([], "00-drydock/adapter.json: legacy_paths must declare path and canonical" ∷ [])

-- What the configuration sets for the checks that follow.
pub record Settings : Type 0 where
  pub states : List String
  pub vocabulary : Dict String Json
  pub field_values : List (String × List String)
  pub forbidden : List (List (String × String))
  pub entity_types : Dict String Json
  pub legacy : List Json
  pub errors : List Problem

-- The names and versions that must agree. `equal` is Python's `==` on what `get` returns.
agreement :
    (Option Json → Option Json → Bool)
    → Dict String Json
    → Dict String Json
    → Dict String Json
    → List String
unfolding when is_blank_text is_filled
agreement equal manifest lock config =
    let name = lookup "adapter" config in
    let version = lookup "adapter_version" config in
    when (is_blank_text name) "00-drydock/adapter.json: invalid or missing adapter"
    ++ when (is_blank_text version) "00-drydock/adapter.json: invalid or missing adapter_version"
    ++ when (is_filled manifest && not (equal name (lookup "adapter" manifest)))
        ".drydock.json: adapter does not match adapter.json"
    ++ when (is_filled manifest && not (equal version (lookup "adapter_version" manifest)))
        ".drydock.json: adapter_version does not match adapter.json"
    ++ when (is_filled lock && not (equal version (lookup "adapter_version" lock)))
        ".drydock-lock.json: adapter_version does not match adapter.json"

-- The errors in the order in which they are found.
unfoldable pub all_errors :
    List GraphError → List String → List GraphError → List String → List Problem
unfolding messages graph_problems
all_errors root_errors names rule_errors others =
    graph_problems root_errors ++ messages names ++ graph_problems rule_errors ++ messages others

unfoldable pub settings_of :
    (Option Json → Option Json → Bool) → Dict String Json → Dict String Json → Json → Settings
unfolding agreement config_object connection_rules object_at field_values_of forbidden_of
    types_errors legacy_of all_errors
settings_of equal manifest lock j =
    let (config, root_errors) = config_object j in
    let (states, vocabulary, rule_errors) = connection_rules config in
    let (validation, validation_errors) = object_at "validation" (lookup "validation" config) in
    let (values_, values_errors) = field_values_of (lookup "field_values" validation) in
    let (forbidden, forbidden_errors) = forbidden_of (lookup "forbidden_combinations" validation) in
    let (types, type_errors) = object_at "entity_types" (lookup "entity_types" config) in
    let (legacy, legacy_errors) = legacy_of (lookup "legacy_paths" config) in
    record {
      states = states;
      vocabulary = vocabulary;
      field_values = values_;
      forbidden = forbidden;
      entity_types = types;
      legacy = legacy;
      errors = all_errors root_errors (agreement equal manifest lock config) rule_errors (
          validation_errors
          ++ values_errors
          ++ forbidden_errors
          ++ type_errors
          ++ types_errors types
          ++ legacy_errors);
    }

-- The settings where the configuration is no JSON.
unfoldable pub settings :
    (Option Json → Option Json → Bool)
    → Dict String Json
    → Dict String Json
    → Option Json
    → Settings
unfolding settings_of
settings equal manifest lock none = record {
  states = valid_connection_states;
  vocabulary = [];
  field_values = [];
  forbidden = [];
  entity_types = [];
  legacy = [];
  errors = message "Invalid 00-drydock/adapter.json" ∷ [];
}
settings equal manifest lock (some j) = settings_of equal manifest lock j
