-- ===== src/Campaign/Create.antt =====
-- standalone.py: `create_entity`, a new record from a template of the adapter.
pub mod Fresh
use Prim.Native.Char.{code}
use warden_drydock.Prelude.{
  ℕ, String, Bool, true, false, List, [], ◌∷◌, ◌++◌, ◌&&◌, ◌||◌, not, Option, none, some, contains,
  any, nat_beq, if◌then◌else◌, ◌==◌, string_eq, option_eq,
}
use warden_drydock.Prelude.Dict.{Dict, lookup}
use warden_drydock.Prelude.Result.{Result, ok, err, ◌>>=◌, ◌>>◌, require, or_raise}
use warden_drydock.Campaign.Text.{
  is_entity_id, ◌<>◌, lstrip, strip_prefix, drop_line, split_lines, join,
}
use warden_drydock.Campaign.Json.{Json, null, boolean, number, text, array, object, members}
use warden_drydock.Campaign.Frontmatter.{frontmatter, text_field}
use warden_drydock.Campaign.Graph.{File}
use warden_drydock.Campaign.Rules.{Root, adapter_config}
use warden_drydock.Campaign.Related.{
  Failure, invalid_id, bad_adapter, unknown_type, unsafe_path, already_exists, no_template,
  duplicate_id,
}
use warden_drydock.Campaign.Indexes.{write_file}
use warden_drydock.Campaign.Context.{read_text, file_at}

-- `re.sub(r"(?m)^key:\s*.*$", replacement, text, count=1)`. The white space after the colon may reach
-- over the end of the line, and then the next line is what is replaced. The test says whether a line
-- begins here.
unfoldable pub sub_field : String → String → Bool → String → String
unfolding strip_prefix drop_line lstrip
sub_field key replacement start String.[] = String.[]
sub_field key replacement start (String.◌∷◌ c s) =
    let rest = String.◌∷◌ c (sub_field key replacement (nat_beq (code c) 10) s) in
    elim (if start then strip_prefix key (String.◌∷◌ c s) else none) [
      | none ↦ rest
      | some after ↦ replacement <> drop_line (lstrip after)
    ]

-- The headings that a template leaves for the name.
is_name_heading : String → Bool
is_name_heading line =
    contains line
      ("# Name" ∷ "# Adventure" ∷ "# Session" ∷ "# Session Preparation" ∷ "# Session Debrief" ∷ [])

sub_heading : String → List String → List String
unfolding is_name_heading
sub_heading replacement [] = []
sub_heading replacement (l ∷ ls) =
    let rest = sub_heading replacement ls in
    if is_name_heading l then replacement ∷ ls else l ∷ rest

-- `.replace("\u2028", "\\u2028").replace("\u2029", "\\u2029")`
escape_separators : String → String
escape_separators String.[] = String.[]
escape_separators (String.◌∷◌ c s) =
    let rest = escape_separators s in
    if nat_beq (code c) 8232
    then "\\u2028" <> rest
    else if nat_beq (code c) 8233
    then "\\u2029" <> rest
    else String.◌∷◌ c rest

named : (String → String) → Option String → String → String
unfolding sub_field sub_heading escape_separators split_lines join
named dumps none s = s
named dumps (some name) s =
    let renamed = sub_field "name:" ("name: " <> escape_separators (dumps name)) true s in
    join "\n" (sub_heading ("# " <> name) (split_lines renamed))

-- The text of the new record.
unfoldable pub filled : (String → String) → String → Option String → String → String
unfolding named sub_field
filled dumps id name template = named dumps name (
    sub_field "ownership:" "ownership: campaign" true
      (sub_field "id:" ("id: " <> id) true template))

object_members : Json → Option (Dict String Json)
unfolding members
object_members (object ms) = some (members ms)
object_members _ = none

-- `config.get("entity_types", {})`
types_of : Option Json → Option (Dict String Json)
unfolding object_members
types_of none = some []
types_of (some j) = object_members j

rule_of : Option Json → Option (Dict String Json)
unfolding object_members
rule_of none = none
rule_of (some j) = object_members j

field_text : String → Dict String Json → Option String
unfolding text_field
field_text key rule = text_field key rule

-- A text that is not in the way: no file declares the ID.
unfoldable pub declares_same : (String → Option Json) → String → File → Bool
unfolding text_field frontmatter
declares_same loads id f = text_field "id" (frontmatter loads (read_text f)) == some id

-- `resolve` gives the place of a path below the root, or nothing outside of it; `occupied` says whether
-- something other than a Markdown file stands at a place; `format_id` is `str.format` with the ID;
-- `dumps` is `json.dumps` without the escaping of other alphabets.
module _ (loads : String → Option Json) (resolve : String → Option (List String))
    (occupied : List String → Bool) (format_id : String → String → Option String)
    (dumps : String → String) where
  unfoldable pub is_taken : List String → List File → Bool
  unfolding file_at
  is_taken place files =
      occupied place || elim (file_at place files) [ none ↦ false | some _ ↦ true ]

  -- The places of the template and of the record, by the rule of the adapter. A rule that lacks either is
  -- a `KeyError`.
  unfoldable pub places : Root → String → String → Result Failure (List String × List String)
  unfolding adapter_config types_of rule_of object_members field_text
  places root kind id = do
    config ← or_raise (adapter_config loads root.adapter) bad_adapter
    settings ← or_raise (object_members config) bad_adapter
    types ← or_raise (types_of (lookup "entity_types" settings)) bad_adapter
    rule ← or_raise (rule_of (lookup kind types)) unknown_type
    from ← or_raise (field_text "template" rule) bad_adapter
    to ← or_raise (field_text "destination" rule) bad_adapter
    path ← or_raise (format_id to id) bad_adapter
    template ← or_raise (resolve from) unsafe_path
    destination ← or_raise (resolve path) unsafe_path
    ok (template, destination)

  unfoldable pub create_at :
      Root
      → String
      → Option String
      → List String × List String
      → Result Failure (List String × Root)
  unfolding declares_same is_taken filled write_file file_at
  create_at root id name (template, destination) = do
    require (not (is_taken destination root.files)) already_exists
    require (not (any (declares_same loads id) root.files)) (duplicate_id id)
    source ← or_raise (file_at template root.files) no_template
    ok (
      destination,
      record root {
        files = write_file destination (filled dumps id name (read_text source)) root.files;
      },
    )

  unfoldable pub create_entity :
      Root → String → String → Option String → Result Failure (List String × Root)
  unfolding places create_at
  create_entity root kind id name = require (is_entity_id id) invalid_id >>= λ _.
      places root kind id >>= λ found. create_at root id name found
