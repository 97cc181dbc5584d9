-- ===== src/Campaign/Frontmatter.antt =====
-- standalone.py: `frontmatter` and `body`, the head of a Markdown record and what follows it.
-- `loads` is Python's `json.loads`, nothing where it raises.
pub mod Laws
use warden_drydock.Prelude.{
  ℕ, String, ◌≡◌, refl, Bool, true, false, List, [], ◌∷◌, ◌&&◌, ◌||◌, not, Option, none, some, any,
  if◌then◌else◌, ◌==◌, string_eq,
}
use warden_drydock.Prelude.Dict.{Dict, lookup, insert}
use warden_drydock.Campaign.Text.{
  starts_with, normalize_newlines, split_lines, strip, drop_chars, drop_last, ends_with, cut,
  is_empty, ◌<>◌,
}
use warden_drydock.Campaign.Json.{
  Json, null, boolean, number, text, array, object, Number, integer, float,
}

-- `_STRING_FRONTMATTER_KEYS`
abbrev pub string_frontmatter_keys : List String
string_frontmatter_keys =
    "id" ∷ "type" ∷ "name" ∷ "status" ∷ "ownership" ∷ "visibility" ∷ "warden_only" ∷ []

unfoldable pub is_string_key : String → Bool
is_string_key key = any (λ k. key == k) string_frontmatter_keys

-- `value[1:-1]`
inner : String → String
unfolding drop_chars drop_last
inner value = drop_last (drop_chars 1 value)

-- The value in quotes, by what `loads` makes of it.
unfoldable pub quoted : String → Option Json → Json
unfolding inner
quoted value (some (text s)) = text s
quoted value _ = text (inner value)

-- The value without quotes under any other key: null, a Boolean, an integer or a finite float.
unfoldable pub literal : String → Option Json → Json
literal value (some null) = null
literal value (some (boolean b)) = boolean b
literal value (some (number (integer s))) = number (integer s)
literal value (some (number (float finite whole repr))) =
    if finite then number (float finite whole repr) else text value
literal value _ = text value

-- `text[4:end]` and `text[end:]`, where the text has a head.
unfoldable pub split_head : String → Option (String × String)
unfolding starts_with drop_chars cut
split_head s = if starts_with "---\n" s then cut "\n---" (drop_chars 4 s) else none

-- `text.split(":", 1)` of a line that has a colon.
unfoldable pub key_of : String × String → String
unfolding strip
key_of line = strip line.0

unfoldable pub value_of : String × String → String
unfolding strip drop_chars
value_of line = strip (drop_chars 1 line.1)

module _ (loads : String → Option Json) where
  unfoldable pub frontmatter_scalar : String → String → Json
  unfolding quoted literal is_string_key starts_with ends_with
  frontmatter_scalar value key =
      if starts_with "\"" value && ends_with b'"' value
      then quoted value (loads value)
      else if not (is_string_key key)
      then literal value (loads value)
      else text value

  put_field : Option (String × String) → Dict String Json → Dict String Json
  unfolding frontmatter_scalar key_of value_of
  put_field none d = d
  put_field (some parts) d =
      insert (key_of parts) (frontmatter_scalar (value_of parts) (key_of parts)) d

  -- The loop over the lines of the head.
  unfoldable pub fields : List String → Dict String Json → Dict String Json
  unfolding put_field starts_with cut
  fields [] d = d
  fields (line ∷ rest) d =
      let next = put_field (cut ":" line) d in
      fields rest (if starts_with " " line then d else next)

  head_fields : Option (String × String) → Dict String Json
  unfolding fields split_lines
  head_fields none = []
  head_fields (some (head, rest)) = fields (split_lines head) []

  unfoldable pub frontmatter : String → Dict String Json
  unfolding head_fields split_head normalize_newlines
  frontmatter s = head_fields (split_head (normalize_newlines s))

body_after : String → Option (String × String) → String
unfolding strip drop_chars
body_after whole none = strip whole
body_after whole (some (head, rest)) = strip (drop_chars 4 rest)

unfoldable pub body : String → String
unfolding body_after split_head normalize_newlines
body s = let whole = normalize_newlines s in body_after whole (split_head whole)

-- `metadata.get(key)` where the value is a text.
unfoldable pub as_text : Option Json → Option String
as_text none = none
as_text (some (text s)) = some s
as_text (some _) = none

unfoldable pub text_field : String → Dict String Json → Option String
unfolding as_text
text_field key metadata = as_text (lookup key metadata)

-- `_frontmatter_text` of a decoded value
unfoldable pub number_text : Number → String
number_text (integer s) = s
number_text (float true (some whole) repr) = whole
number_text (float _ _ repr) = repr

-- `str` of a list or an object is Python's.
unfoldable pub frontmatter_text : (Json → String) → Json → String
unfolding number_text
frontmatter_text str null = "null"
frontmatter_text str (boolean true) = "true"
frontmatter_text str (boolean false) = "false"
frontmatter_text str (number n) = number_text n
frontmatter_text str (text s) = s
frontmatter_text str (array js) = str (array js)
frontmatter_text str (object ms) = str (object ms)

parsed_text : (Json → String) → String → Option Json → String
unfolding frontmatter_text
parsed_text str s none = s
parsed_text str s (some (text t)) = s
parsed_text str s (some j) = frontmatter_text str j

-- `actual == expected` for an expected text
is_that_text : Json → String → Bool
is_that_text (text s) expected = s == expected
is_that_text _ expected = false

-- `_frontmatter_matches` for an expected text, which is parsed as a number where it is one.
unfoldable pub frontmatter_matches : (Json → String) → (String → Option Json) → Json → String → Bool
unfolding is_that_text frontmatter_text parsed_text
frontmatter_matches str loads actual expected =
    is_that_text actual expected
    || frontmatter_text str actual == parsed_text str expected (loads expected)
