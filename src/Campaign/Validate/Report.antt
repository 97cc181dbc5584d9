-- ===== src/Campaign/Validate/Report.antt =====
-- standalone.py: the warnings of `validate_campaign`, and the report that it ends with.
pub mod Passed
use Prim.Native.String.{count}
use warden_drydock.Prelude.{
  ℕ, zero, suc, ◌+◌, String, Bool, true, false, List, [], ◌∷◌, ◌++◌, ◌&&◌, ◌||◌, not, Option, none,
  some, contains, any, all, map, ltb, nat_beq, length, if◌then◌else◌, ◌==◌, string_eq, list_eq,
}
use warden_drydock.Prelude.Dict.{Dict, lookup}
use warden_drydock.Prelude.Result.{Result, ok, err, ◌>>=◌}
use warden_drydock.Campaign.Text.{is_empty, ◌<>◌, decimal, split_on, drop_last}
use warden_drydock.Campaign.Json.{
  Json, null, boolean, number, text, array, object, Number, integer, float, members, items,
}
use warden_drydock.Campaign.Connections.{Connection}
use warden_drydock.Campaign.Frontmatter.{frontmatter, text_field}
use warden_drydock.Campaign.Graph.{File, Entity, Graph, as_posix, graph}
use warden_drydock.Campaign.Rules.{Root, adapter_config, fatal_connection_errors}
use warden_drydock.Campaign.Context.{read_text}
use warden_drydock.Campaign.Validate.Metadata.{Crash, check_manifest, check_lock, read_json}
use warden_drydock.Campaign.Validate.Settings.{
  Settings, Problem, settings, messages, graph_problems, when,
}
use warden_drydock.Campaign.Validate.Records.{files_errors, files_warnings}

last_part : List String → String
last_part [] = ""
last_part (p ∷ []) = p
last_part (p ∷ q ∷ ps) = last_part (q ∷ ps)

-- A name without its ending ".md"
without_ending : String → String
unfolding drop_last
without_ending s = drop_last (drop_last (drop_last s))

ids_of : Option String → List String
ids_of none = []
ids_of (some id) = if is_empty id then [] else id ∷ []

-- What a link may name: a file by its stem or by its path, or an entity by its ID.
unfoldable pub known_names : (String → String) → (String → Option Json) → List File → List String
unfolding last_part without_ending ids_of frontmatter text_field
known_names lower loads [] = []
known_names lower loads (f ∷ fs) =
    lower (without_ending (last_part f.parts))
      ∷ lower (without_ending (as_posix f.parts))
      ∷ map lower (ids_of (text_field "id" (frontmatter loads (read_text f))))
    ++ known_names lower loads fs

-- `bool(value)`
is_zero : Number → Bool
is_zero (integer s) = s == "0"
is_zero (float finite (some whole) repr) = whole == "0"
is_zero (float finite none repr) = false

is_nil : {A : Type 0} → List A → Bool
is_nil [] = true
is_nil (x ∷ xs) = false

is_truthy : Option Json → Bool
unfolding is_zero is_nil items members
is_truthy none = false
is_truthy (some null) = false
is_truthy (some (boolean b)) = b
is_truthy (some (number n)) = not (is_zero n)
is_truthy (some (text s)) = not (is_empty s)
is_truthy (some (array js)) = not (is_nil (items js))
is_truthy (some (object ms)) = not (is_nil (members ms))

-- The parts of a relative path.
path_parts : List String → List String
path_parts [] = []
path_parts (p ∷ ps) = let rest = path_parts ps in if is_empty p || p == "." then rest else p ∷ rest

-- What is left of the parts below a directory.
below : List String → List String → Option (List String)
below [] parts = some parts
below (d ∷ ds) [] = none
below (d ∷ ds) (p ∷ ps) = let rest = below ds ps in if d == p then rest else none

is_candidate : Bool → Option (List String) → Bool
is_candidate direct none = false
is_candidate direct (some []) = false
is_candidate direct (some (p ∷ [])) = true
is_candidate direct (some (p ∷ q ∷ ps)) = not direct

text_at : String → Dict String Json → String
text_at key rule = elim (lookup key rule) [ none ↦ "" | some j ↦ elim j [ text s ↦ s | _ ↦ "" ] ]

rule_warnings : Dict String Json → List File → List String
unfolding is_truthy path_parts below is_candidate text_at split_on
rule_warnings rule [] = []
rule_warnings rule (f ∷ fs) =
    let more = rule_warnings rule fs in
    if is_candidate (is_truthy (lookup "direct_files_only" rule))
      (below (path_parts (split_on b'/' (text_at "path" rule))) f.parts)
    then (as_posix f.parts
        <> ": legacy adapter path; optional manual move to "
        <> text_at "canonical" rule
        <> " after reviewing links")
      ∷ more
    else more

unfoldable pub legacy_warnings : List Json → List File → List String
unfolding rule_warnings members
legacy_warnings [] files = []
legacy_warnings (object ms ∷ js) files =
    rule_warnings (members ms) files ++ legacy_warnings js files
legacy_warnings (_ ∷ js) files = legacy_warnings js files

-- The four texts by which an edge is compared.
abbrev pub Edge : Type 0
Edge = List String

abbrev pub edge_of : Connection → Edge
edge_of c = c.source_id ∷ c.target_id ∷ c.relationship ∷ c.state ∷ []

is_known_key : String → Dict String Json → Bool
is_known_key k d = elim (lookup k d) [ none ↦ false | some _ ↦ true ]

-- The warnings of a connection whose target is an entity.
edge_warnings : Dict String Json → List Edge → Connection → List String
unfolding when is_known_key decimal
edge_warnings vocabulary seen c =
    let location = c.path <> ":" <> decimal c.line in
    when (c.source_id == c.target_id) (location <> ": self-connection")
    ++ when (contains (edge_of c) seen) (location <> ": duplicate connection")
    ++ when (not (is_known_key c.relationship vocabulary))
        (location <> ": unknown relationship " <> c.relationship)
    ++ when (ltb 200 (count c.context)) (location <> ": connection context exceeds 200 characters")

unfoldable pub connection_warnings :
    Dict String Entity → Dict String Json → List Edge → List Connection → List String
unfolding edge_warnings
connection_warnings entities vocabulary seen [] = []
connection_warnings entities vocabulary seen (c ∷ cs) =
    let skip = connection_warnings entities vocabulary seen cs in
    let rest = connection_warnings entities vocabulary (edge_of c ∷ seen) cs in
    elim (lookup c.target_id entities) [
      | none ↦ skip
      | some _ ↦ edge_warnings vocabulary seen c ++ rest
    ]

-- What the command prints, and its exit status.
pub record Report : Type 0 where
  pub checked : ℕ
  pub warnings : List String
  pub errors : List Problem

unfoldable pub status : Report → ℕ
status r = elim r.errors [ [] ↦ 0 | _ ∷ _ ↦ 1 ]

-- A root with the two files of metadata that only this command reads.
pub record Campaign : Type 0 where
  pub root : Root
  pub manifest : Option String
  pub lock : Option String

-- `equal`, `str`, `repr`, `casefold`, `lower` and `loads` are Python's.
module _ (equal : Option Json → Option Json → Bool) (str : Json → String)
    (repr casefold lower : String → String) (loads : String → Option Json) where
  -- The report once the metadata and the configuration have been read.
  unfoldable pub report : List String → Settings → Root → Report
  unfolding graph files_errors files_warnings known_names legacy_warnings connection_warnings
      fatal_connection_errors messages graph_problems
  report metadata_errors settings root =
      let g = graph casefold loads root.files in
      record {
        checked = length root.files;
        warnings =
            legacy_warnings settings.legacy root.files
            ++ files_warnings str casefold lower loads (known_names lower loads root.files)
                root.files
            ++ connection_warnings g.entities settings.vocabulary [] g.connections;
        errors =
            messages metadata_errors
            ++ settings.errors
            ++ messages (files_errors str casefold lower loads settings root.files)
            ++ graph_problems g.errors
            ++ graph_problems (fatal_connection_errors g.entities settings.states g.connections);
      }

  -- `validate_campaign`
  unfoldable pub validate_campaign : Campaign → Result Crash Report
  unfolding check_manifest check_lock read_json settings adapter_config report
  validate_campaign c = check_manifest (read_json loads c.manifest) >>= λ manifest.
      check_lock repr (read_json loads c.lock) >>= λ lock. ok (
        report (manifest.1 ++ lock.1)
          (settings equal manifest.0 lock.0 (adapter_config loads c.root.adapter)) c.root)
