-- ===== src/Campaign/Validate/Records.antt =====
-- standalone.py: the part of `validate_campaign` that reads every Markdown file. A list of the
-- configuration that is malformed has been reported as an error before and is read as empty here, where
-- the source would go on to iterate over whatever it is.
use Prim.Native.Char.{code}
use Prim.Native.String.{count}
use warden_drydock.Prelude.{
  ℕ, zero, suc, ◌+◌, String, Bool, true, false, List, [], ◌∷◌, ◌++◌, ◌&&◌, ◌||◌, not, Option, none,
  some, contains, map, leb, nat_beq, if◌then◌else◌, ◌==◌, string_eq,
}
use warden_drydock.Prelude.Dict.{Dict, lookup}
use warden_drydock.Campaign.Text.{
  is_empty, is_space, starts_with, ◌<>◌, contains_text, join, strip, lstrip, rstrip, head_is, span,
  cut,
}
use warden_drydock.Campaign.Json.{Json, null, text, array, object, items, members}
use warden_drydock.Campaign.Frontmatter.{frontmatter, text_field, frontmatter_matches}
use warden_drydock.Campaign.Graph.{File, as_posix}
use warden_drydock.Campaign.Rules.{texts}
use warden_drydock.Campaign.Context.{read_text}
use warden_drydock.Campaign.Validate.Metadata.{valid_ownership}
use warden_drydock.Campaign.Validate.Settings.{Settings, text_pairs, when}

-- `VALID_STATUSES`
abbrev pub valid_statuses : List String
valid_statuses = "idea" ∷ "draft" ∷ "review" ∷ "canon" ∷ "revealed" ∷ "archived" ∷ "accepted" ∷ []

-- `value and value not in valid`
unfoldable pub outside : List String → Option String → Bool
outside valid none = false
outside valid (some s) = not (is_empty s) && not (contains s valid)

or_empty : Option String → String
or_empty none = ""
or_empty (some s) = s

-- `#{1,6}\s+` at the begin of a line: the number of hashes so far, and what follows the white space,
-- which may reach over the end of the line.
hashes : ℕ → String → Option String
unfolding head_is is_space lstrip
hashes n String.[] = none
hashes n (String.◌∷◌ c s) =
    let deeper = hashes (suc n) s in
    if nat_beq (code c) b'#'
    then deeper
    else if leb 1 n && leb n 6 && is_space (code c)
    then some (lstrip s)
    else none

not_newline : ℕ → Bool
not_newline c = not (nat_beq c 10)

heading_of : Option String → List String
unfolding rstrip span not_newline
heading_of none = []
heading_of (some s) =
    let line = rstrip (span not_newline s).0 in if is_empty line then [] else line ∷ []

-- `HEADING_PATTERN.findall`, from a place that begins a line or not.
unfoldable pub headings : Bool → String → List String
unfolding hashes heading_of
headings start String.[] = []
headings start (String.◌∷◌ c s) =
    (if start then heading_of (hashes 0 (String.◌∷◌ c s)) else [])
    ++ headings (nat_beq (code c) 10) s

not_bracket : ℕ → Bool
not_bracket c = not (nat_beq c b']')

-- The link that begins at this place: `\[\[([^\]]+)\]\]`.
link_at : String → Option String
unfolding starts_with span not_bracket
link_at (String.◌∷◌ a (String.◌∷◌ b s)) =
    let run = span not_bracket s in
    if nat_beq (code a) b'['
      && nat_beq (code b) b'['
      && not (is_empty run.0)
      && starts_with "]]" run.1
    then some run.0
    else none
link_at _ = none

-- `re.findall`: after a link the search goes on behind it. The number counts the characters of a link
-- that are still to be passed.
unfoldable pub wikilinks : ℕ → String → List String
unfolding link_at
wikilinks n String.[] = []
wikilinks (suc n) (String.◌∷◌ c s) = wikilinks n s
wikilinks zero (String.◌∷◌ c s) =
    let next = wikilinks zero s in
    elim (link_at (String.◌∷◌ c s)) [ none ↦ next | some raw ↦ raw ∷ wikilinks (count raw + 3) s ]

-- `text.split(c, 1)[0]`
before : String → String → String
unfolding cut
before mark s = elim (cut mark s) [ none ↦ s | some parts ↦ parts.0 ]

module _ (str : Json → String) (casefold lower : String → String)
    (loads : String → Option Json) where
  -- The link's target, as it is compared.
  unfoldable pub target_of : String → String
  unfolding before strip
  target_of raw = lower (strip (before "#" (before "|" raw)))

  unfoldable pub link_warnings : String → List String → List String → List String
  unfolding target_of
  link_warnings relative known [] = []
  link_warnings relative known (raw ∷ rest) =
      let more = link_warnings relative known rest in
      let target = target_of raw in
      if not (is_empty target) && not (target == "target-id") && not (contains target known)
      then (relative <> ": unresolved wikilink [[" <> raw <> "]]") ∷ more
      else more

  matches_any : Json → List String → Bool
  unfolding frontmatter_matches
  matches_any actual [] = false
  matches_any actual (v ∷ vs) = frontmatter_matches str loads actual v || matches_any actual vs

  value_error : String → String → List String → Option Json → List String
  unfolding matches_any when
  value_error relative field allowed none = []
  value_error relative field allowed (some j) =
      when (not (matches_any j allowed)) (relative <> ": invalid " <> field <> " " <> str j)

  value_errors : String → Dict String Json → List (String × List String) → List String
  unfolding value_error
  value_errors relative metadata [] = []
  value_errors relative metadata ((field, allowed) ∷ rest) =
      value_error relative field allowed (lookup field metadata)
      ++ value_errors relative metadata rest

  has_value : Option Json → String → Bool
  unfolding frontmatter_matches
  has_value none v = false
  has_value (some j) v = frontmatter_matches str loads j v

  holds : Dict String Json → List (String × String) → Bool
  unfolding has_value
  holds metadata [] = true
  holds metadata ((field, v) ∷ rest) = has_value (lookup field metadata) v && holds metadata rest

  rendered_pairs : List (String × String) → List String
  rendered_pairs [] = []
  rendered_pairs ((field, v) ∷ rest) = (field <> "=" <> v) ∷ rendered_pairs rest

  unfoldable pub combination_errors :
      String → Dict String Json → List (List (String × String)) → List String
  unfolding holds rendered_pairs join when
  combination_errors relative metadata [] = []
  combination_errors relative metadata (c ∷ cs) =
      when (holds metadata c)
        (relative <> ": forbidden field combination " <> join ", " (rendered_pairs c))
      ++ combination_errors relative metadata cs

  -- The rule of the entity's type, where it is an object.
  rule_of : Dict String Json → Option String → Dict String Json
  unfolding members
  rule_of types none = []
  rule_of types (some t) = elim (lookup t types) [
    | none ↦ []
    | some j ↦ elim j [ object ms ↦ members ms | _ ↦ [] ]
  ]

  names_at : String → Dict String Json → List String
  unfolding texts items
  names_at key rule = elim (lookup key rule) [
    | none ↦ []
    | some j ↦ elim j [ array js ↦ elim (texts (items js)) [ none ↦ [] | some ss ↦ ss ] | _ ↦ [] ]
  ]

  pairs_at : String → Dict String Json → List (String × String)
  unfolding text_pairs members
  pairs_at key rule = elim (lookup key rule) [
    | none ↦ []
    | some j ↦ elim j [
      | object ms ↦ elim (text_pairs (members ms)) [ none ↦ [] | some ps ↦ ps ]
      | _ ↦ []
    ]
  ]

  is_present : Option Json → Bool
  is_present none = false
  is_present (some j) = true

  -- `value is None or (isinstance(value, str) and not value.strip())`, where a missing value is empty
  is_void : Option Json → Bool
  unfolding strip
  is_void none = true
  is_void (some null) = true
  is_void (some (text s)) = is_empty (strip s)
  is_void (some _) = false

  missing_errors : String → Dict String Json → List String → List String
  unfolding is_present when
  missing_errors relative metadata [] = []
  missing_errors relative metadata (f ∷ fs) =
      when (not (is_present (lookup f metadata))) (relative <> ": missing required field " <> f)
      ++ missing_errors relative metadata fs

  void_errors : String → Dict String Json → List String → List String
  unfolding is_void when
  void_errors relative metadata [] = []
  void_errors relative metadata (f ∷ fs) =
      when (is_void (lookup f metadata)) (relative <> ": field " <> f <> " must not be empty")
      ++ void_errors relative metadata fs

  required_errors : String → String → Dict String Json → List (String × String) → List String
  unfolding has_value when
  required_errors relative t metadata [] = []
  required_errors relative t metadata ((f, v) ∷ fs) =
      when (not (has_value (lookup f metadata) v))
        (relative <> ": " <> f <> " must be " <> v <> " for " <> t)
      ++ required_errors relative t metadata fs

  heading_errors : String → List String → List String → List String
  unfolding when
  heading_errors relative found [] = []
  heading_errors relative found (h ∷ hs) =
      when (contains (casefold h) found) (relative <> ": forbidden heading " <> h)
      ++ heading_errors relative found hs

  is_rule : Dict String Json → Bool
  is_rule [] = false
  is_rule (p ∷ d) = true

  rule_errors : String → String → Dict String Json → Dict String Json → String → List String
  unfolding missing_errors void_errors required_errors heading_errors names_at pairs_at headings
  rule_errors relative t metadata rule s =
      missing_errors relative metadata (names_at "required_fields" rule)
      ++ void_errors relative metadata (names_at "nonempty_fields" rule)
      ++ required_errors relative t metadata (pairs_at "required_values" rule)
      ++ heading_errors relative (map casefold (headings true s))
          (names_at "forbidden_headings" rule)

  has_conflict : String → Bool
  unfolding contains_text
  has_conflict s =
      contains_text "<<<<<<<" s || contains_text "=======" s || contains_text ">>>>>>>" s

  is_campaign_record : Dict String Json → String → Bool
  unfolding text_field starts_with
  is_campaign_record metadata relative =
      or_empty (text_field "ownership" metadata) == "campaign"
      && not (starts_with "templates/" relative)

  -- The errors of one file, whose metadata has been read.
  unfoldable pub file_errors : Settings → String → Dict String Json → String → List String
  unfolding outside value_errors combination_errors rule_of rule_errors is_rule is_campaign_record
      has_conflict when or_empty text_field
  file_errors settings relative metadata s =
      let status = text_field "status" metadata in
      let ownership = text_field "ownership" metadata in
      let rule = rule_of settings.entity_types (text_field "type" metadata) in
      when (outside valid_statuses status) (relative <> ": invalid status " <> or_empty status)
      ++ when (outside valid_ownership ownership)
          (relative <> ": invalid ownership " <> or_empty ownership)
      ++ value_errors relative metadata settings.field_values
      ++ combination_errors relative metadata settings.forbidden
      ++ (if is_rule rule && is_campaign_record metadata relative
          then rule_errors relative (or_empty (text_field "type" metadata)) metadata rule s
          else [])
      ++ when (has_conflict s) (relative <> ": merge conflict marker")

  unfoldable pub files_errors : Settings → List File → List String
  unfolding file_errors frontmatter
  files_errors settings [] = []
  files_errors settings (f ∷ fs) =
      file_errors settings (as_posix f.parts) (frontmatter loads (read_text f)) (read_text f)
      ++ files_errors settings fs

  unfoldable pub files_warnings : List String → List File → List String
  unfolding link_warnings wikilinks
  files_warnings known [] = []
  files_warnings known (f ∷ fs) =
      link_warnings (as_posix f.parts) known (wikilinks zero (read_text f))
      ++ files_warnings known fs
