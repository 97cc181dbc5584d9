-- ===== src/Campaign/Context.antt =====
-- standalone.py: `build_context`, the file that is handed to a language model.
use Prim.Native.Nat.{◌-◌}
use warden_drydock.Prelude.{
  ℕ, zero, suc, String, Bool, false, List, [], ◌∷◌, ◌++◌, ◌&&◌, Option, none, some, filter,
  contains, length, if◌then◌else◌, ◌==◌, string_eq, nat_beq,
}
use warden_drydock.Prelude.Sort.{sort}
use warden_drydock.Prelude.Result.{Result, ok, err, ◌>>=◌}
use warden_drydock.Campaign.Text.{is_empty, ◌<>◌, dashes_to_spaces, decimal, normalize_newlines}
use warden_drydock.Campaign.Json.{Json}
use warden_drydock.Campaign.Frontmatter.{frontmatter, text_field, body}
use warden_drydock.Campaign.Graph.{Entity, File, as_posix, parts_leb}
use warden_drydock.Campaign.Rules.{Root, graph_or_exit}
use warden_drydock.Campaign.Related.{
  Failure, negative_depth, no_records, or_refused, related_entities, ℤ, pos, negsuc,
}
use warden_drydock.Campaign.Indexes.{rendered, write_file}

-- `APPROVED_SESSION_STATUSES`
unfoldable pub is_approved : Option String → Bool
is_approved none = false
is_approved (some s) = contains s ("canon" ∷ "revealed" ∷ "accepted" ∷ [])

is_log_path : List String → Bool
is_log_path (a ∷ b ∷ c ∷ []) = a == "12-sessions" && b == "logs"
is_log_path _ = false

-- `read_text`, which reads every line end as a newline
abbrev pub read_text : File → String
unfolding normalize_newlines
read_text f = normalize_newlines f.content

unfoldable pub is_approved_log : (String → Option Json) → File → Bool
unfolding is_approved is_log_path frontmatter text_field
is_approved_log loads f =
    is_log_path f.parts && is_approved (text_field "status" (frontmatter loads (read_text f)))

by_parts : File → File → Bool
unfolding parts_leb
by_parts f g = parts_leb f.parts g.parts

-- `_approved_session_logs`
unfoldable pub approved_session_logs : (String → Option Json) → List File → List File
unfolding is_approved_log by_parts
approved_session_logs loads files = sort by_parts (filter (is_approved_log loads) files)

-- `logs[-1]`, where there is one
unfoldable pub last : List File → Option File
last [] = none
last (f ∷ []) = some f
last (f ∷ g ∷ fs) = last (g ∷ fs)

unfoldable pub file_at : List String → List File → Option File
file_at parts [] = none
file_at parts (f ∷ fs) =
    let rest = file_at parts fs in if as_posix f.parts == as_posix parts then some f else rest

section_of : (String → String) → String → Option File → List String
unfolding body
section_of title stem none = []
section_of title stem (some f) =
    ("## " <> title (dashes_to_spaces stem)) ∷ "" ∷ body (read_text f) ∷ "" ∷ []

source_sections : (String → String) → List File → List String
unfolding section_of file_at
source_sections title files =
    section_of title "current-state" (file_at ("00-drydock" ∷ "current-state.md" ∷ []) files)
    ++ section_of title "canon-policy" (file_at ("00-drydock" ∷ "canon-policy.md" ∷ []) files)
    ++ section_of title "system-principles"
        (file_at ("00-drydock" ∷ "system-principles.md" ∷ []) files)

latest_session : Option File → String
unfolding body
latest_session none = "No approved session log recorded."
latest_session (some f) = body (read_text f)

-- `entities[:max_records]`
unfoldable pub take : ℕ → List Entity → List Entity
take zero es = []
take (suc n) [] = []
take (suc n) (e ∷ es) = e ∷ take n es

-- `len(entities) - len(included)`
unfoldable pub omitted : ℕ → List Entity → ℕ
unfolding take
omitted max_records es = length es - length (take max_records es)

record_sections : List Entity → List String
unfolding body
record_sections [] = []
record_sections (e ∷ es) =
    ("### " <> e.name <> " (`" <> e.entity_id <> "`)")
    ∷ ""
    ∷ body e.content
    ∷ ""
    ∷ record_sections es

report : String → ℕ → ℕ → List Entity → List String
unfolding take omitted decimal
report focus depth max_records es =
    ("Included "
      <> decimal (length (take max_records es))
      <> " record(s) for `"
      <> focus
      <> "` at depth "
      <> decimal depth
      <> ".")
    ∷ (if nat_beq (omitted max_records es) 0
        then []
        else ("Omitted "
            <> decimal (omitted max_records es)
            <> " record(s) because of `--max-records "
            <> decimal max_records
            <> "`; use `related "
            <> focus
            <> "` to inspect them.")
          ∷ [])

focused_of : String → ℕ → ℕ → List Entity → List Entity → List String
unfolding record_sections report
focused_of focus depth max_records es [] = []
focused_of focus depth max_records es (i ∷ is) =
    "## Focused Records" ∷ "" ∷ record_sections (i ∷ is)
    ++ "## Retrieval Report" ∷ "" ∷ report focus depth max_records es
    ++ "" ∷ []

unfoldable pub context_text :
    (String → String) → (String → Option Json) → Root → String → ℕ → ℕ → List Entity → String
unfolding source_sections latest_session focused_of take last approved_session_logs rendered
context_text title loads root focus depth max_records es = rendered (
    "# AI Context"
      ∷ ""
      ∷ "> Generated by Warden Drydock. Do not edit manually."
      ∷ ""
      ∷ source_sections title root.files
    ++ "## Latest Approved Session"
      ∷ ""
      ∷ latest_session (last (approved_session_logs loads root.files))
      ∷ ""
      ∷ focused_of focus depth max_records es (take max_records es))

abbrev pub context_path : List String
context_path = "00-drydock" ∷ "ai-context.md" ∷ []

-- `related_entities(root, focus, depth) if focus else []`, and the check of the graph without a focus
unfoldable pub focused_entities :
    (String → String) → (String → Option Json) → Root → String → ℕ → Result Failure (List Entity)
unfolding related_entities or_refused graph_or_exit
focused_entities casefold loads root focus depth =
    if is_empty focus
    then (or_refused (graph_or_exit casefold loads root) >>= λ g. ok [])
    else related_entities casefold loads root focus (pos depth)

unfoldable pub context_within :
    (String → String)
    → (String → String)
    → (String → Option Json)
    → Root
    → String
    → ℕ
    → ℕ
    → Result Failure Root
unfolding focused_entities context_text write_file
context_within casefold title loads root focus depth max_records =
    focused_entities casefold loads root focus depth >>= λ es. ok (record root {
      files =
          write_file context_path (context_text title loads root focus depth max_records es)
            root.files;
    })

-- `build_context`. No focus is the empty text, which the source takes for none as well.
unfoldable pub build_context :
    (String → String)
    → (String → String)
    → (String → Option Json)
    → Root
    → String
    → ℤ
    → ℤ
    → Result Failure Root
unfolding context_within
build_context casefold title loads root focus (negsuc n) max_records = err negative_depth
build_context casefold title loads root focus (pos depth) (negsuc n) = err no_records
build_context casefold title loads root focus (pos depth) (pos zero) = err no_records
build_context casefold title loads root focus (pos depth) (pos (suc n)) =
    context_within casefold title loads root focus depth (suc n)
