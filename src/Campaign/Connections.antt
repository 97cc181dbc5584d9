-- ===== src/Campaign/Connections.antt =====
-- standalone.py: the lines of a section, and the connections that a record's text declares.
pub mod Printed
use Prim.Native.Char.{code}
use warden_drydock.Prelude.{
  ℕ, suc, String, ◌≡◌, refl, Bool, true, false, List, [], ◌∷◌, ◌&&◌, ◌||◌, not, nat_beq, Option,
  none, some, if◌then◌else◌, ◌==◌, string_eq,
}
use warden_drydock.Campaign.Text.{
  is_space, is_empty, starts_with, normalize_newlines, split_lines, lstrip, strip, span, is_id_char,
  is_entity_id, head_is, ◌<>◌,
}

pub record Connection : Type 0 where
  pub source_id : String
  pub target_id : String
  pub relationship : String
  pub state : String
  pub context : String
  pub path : String
  pub line : ℕ

-- `line.strip().casefold() == f"## {heading}".casefold()`. The table of `casefold` is the caller's.
is_heading : (String → String) → String → String → Bool
unfolding strip
is_heading casefold heading line = casefold (strip line) == casefold ("## " <> heading)

-- The lines up to the next heading of the second level, numbered from `n`.
unfoldable pub lines_until_heading : ℕ → List String → List (ℕ × String)
unfolding starts_with
lines_until_heading n [] = []
lines_until_heading n (l ∷ ls) =
    let rest = lines_until_heading (suc n) ls in if starts_with "## " l then [] else (n, l) ∷ rest

-- The lines after the first heading that matches; the line in hand has number `n`.
unfoldable pub section_from : (String → String) → String → ℕ → List String → List (ℕ × String)
unfolding is_heading lines_until_heading
section_from casefold heading n [] = []
section_from casefold heading n (l ∷ ls) =
    let rest = section_from casefold heading (suc n) ls in
    if is_heading casefold heading l then lines_until_heading (suc n) ls else rest

unfoldable pub section_lines : (String → String) → String → String → List (ℕ × String)
unfolding section_from normalize_newlines split_lines
section_lines casefold text heading =
    section_from casefold heading 1 (split_lines (normalize_newlines text))

-- The pieces of `CONNECTION_PATTERN`. Each reads what it can from the left, and what follows a run
-- never belongs to the run, so the pattern has one way to match.
infixl 5 ◌>>=◌
abbrev pub ◌>>=◌ {ℓ κ} : {A : Type ℓ} {B : Type κ} → Option A → (A → Option B) → Option B
none >>= f = none
some a >>= f = f a

unfoldable pub expect : ℕ → String → Option String
expect d String.[] = none
expect d (String.◌∷◌ c s) = if nat_beq (code c) d then some s else none

-- `\s+`
unfoldable pub spaces : String → Option String
unfolding head_is is_space lstrip
spaces s = if head_is is_space s then some (lstrip s) else none

-- `[a-z0-9][a-z0-9-]*`
unfoldable pub read_id : String → Option (String × String)
unfolding span is_id_char is_entity_id
read_id s = let run = span is_id_char s in if is_entity_id run.0 then some run else none

-- `(?:→|->)`
unfoldable pub arrow : String → Option String
unfolding starts_with expect
arrow s = if starts_with "→" s then expect 8594 s else (expect b'-' s >>= expect b'>')

unfoldable pub not_bracket : ℕ → Bool
not_bracket c = not (nat_beq c b']')

-- `(?:\|[^\]]+)?`
unfoldable pub alias : String → Option String
unfolding span not_bracket starts_with expect
alias s =
    if starts_with "|" s
    then (expect b'|' s >>= λ t.
        let run = span not_bracket t in if is_empty run.0 then none else some run.1)
    else some s

-- `\S.*`
unfoldable pub to_end : String → Option String
unfolding head_is
to_end s = if is_empty s then none else some s

-- The groups of the match.
pub record Parts : Type 0 where
  pub relationship : String
  pub target : String
  pub state : String
  pub context : String

-- `CONNECTION_PATTERN.fullmatch(line)`
unfoldable pub match_connection : String → Option Parts
unfolding lstrip expect spaces read_id arrow alias to_end
match_connection line = do
  s ← expect b'-' (lstrip line)
  s ← spaces s
  s ← expect b'`' s
  relationship ← read_id s
  s ← expect b'`' relationship.1
  s ← spaces s
  s ← arrow s
  s ← spaces s
  s ← expect b'[' s
  s ← expect b'[' s
  target ← read_id s
  s ← alias target.1
  s ← expect b']' s
  s ← expect b']' s
  s ← spaces s
  s ← expect b'(' s
  s ← expect b'`' s
  state ← read_id s
  s ← expect b'`' state.1
  s ← expect b')' s
  s ← spaces s
  s ← expect 8212 s
  s ← spaces s
  context ← to_end s
  some (record {
    relationship = relationship.0;
    target = target.0;
    state = state.0;
    context = context;
  })

-- `f"{path}:{line_number}: malformed connection"`
pub data ParseError : Type 0 where
  malformed_connection : String → ℕ → ParseError

connection_of : String → String → ℕ → Parts → Connection
connection_of source path n p = record {
  source_id = source;
  target_id = p.target;
  relationship = p.relationship;
  state = p.state;
  context = p.context;
  path = path;
  line = n;
}

-- The lines that are passed over: blank, a comment, or not a list item.
unfoldable pub is_skipped : String → Bool
unfolding strip lstrip starts_with
is_skipped line =
    is_empty (strip line) || starts_with "<!--" (lstrip line) || not (starts_with "-" (lstrip line))

parsed_line :
    String
    → String
    → ℕ
    → Option Parts
    → List Connection × List ParseError
    → List Connection × List ParseError
unfolding connection_of
parsed_line source path n none (cs, es) = (cs, malformed_connection path n ∷ es)
parsed_line source path n (some p) (cs, es) = (connection_of source path n p ∷ cs, es)

unfoldable pub parse_lines : String → String → List (ℕ × String) → List Connection × List ParseError
unfolding is_skipped parsed_line match_connection
parse_lines source path [] = ([], [])
parse_lines source path ((n, line) ∷ ls) =
    let rest = parse_lines source path ls in
    if is_skipped line then rest else parsed_line source path n (match_connection line) rest

unfoldable pub parse_connections :
    (String → String) → String → String → String → List Connection × List ParseError
unfolding parse_lines section_lines
parse_connections casefold text source path =
    parse_lines source path (section_lines casefold text "Connections")
