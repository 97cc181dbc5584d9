-- ===== src/Campaign/Text.antt =====
-- The methods of Python's `str` that standalone.py calls on the text of a record. A text is the list
-- of its characters, and a test on a character is a test on its code point.
pub mod Spans
use Prim.Native.Char.{Char, code}
use Prim.Native.Nat.{◌/◌, ◌%◌}
use warden_drydock.Prelude.{
  ℕ, zero, suc, String, ◌≡◌, refl, Bool, true, false, List, [], ◌∷◌, ◌&&◌, ◌||◌, not, leb, ltb,
  nat_beq, Option, none, some, arith, if◌then◌else◌, ap, Eq, ◌==◌, string_eq,
}
use warden_drydock.Prelude.Text.{is_lower, is_digit}

-- `\s` and `str.isspace`
unfoldable pub is_space : ℕ → Bool
is_space c =
    (leb 9 c && leb c 13)
    || (leb 28 c && leb c 32)
    || nat_beq c 133
    || nat_beq c 160
    || nat_beq c 5760
    || (leb 8192 c && leb c 8202)
    || nat_beq c 8232
    || nat_beq c 8233
    || nat_beq c 8239
    || nat_beq c 8287
    || nat_beq c 12288

-- `+` on texts, by clauses so that it computes in front of a text that is not known.
infixr 65 ◌<>◌
abbrev pub ◌<>◌ : String → String → String
String.[] <> t = t
String.◌∷◌ c s <> t = String.◌∷◌ c (s <> t)

abbrev pub is_empty : String → Bool
is_empty String.[] = true
is_empty (String.◌∷◌ c s) = false

-- `prefix` is given first.
unfoldable pub starts_with : String → String → Bool
starts_with String.[] s = true
starts_with (String.◌∷◌ d t) String.[] = false
starts_with (String.◌∷◌ d t) (String.◌∷◌ c s) = nat_beq (code d) (code c) && starts_with t s

-- `.replace("\r\n", "\n")`: a carriage return before a newline goes.
unfoldable pub join_crlf : String → String
unfolding starts_with
join_crlf String.[] = String.[]
join_crlf (String.◌∷◌ c s) =
    let rest = join_crlf s in
    if nat_beq (code c) 13 && starts_with "\n" s then rest else String.◌∷◌ c rest

-- `.replace("\r", "\n")`
unfoldable pub replace_cr : String → String
replace_cr String.[] = String.[]
replace_cr (String.◌∷◌ c s) = String.◌∷◌ (if nat_beq (code c) 13 then "\n" else c) (replace_cr s)

unfoldable pub normalize_newlines : String → String
unfolding join_crlf replace_cr
normalize_newlines s = replace_cr (join_crlf s)

push_char : Char → List String → List String
push_char c [] = String.◌∷◌ c String.[] ∷ []
push_char c (l ∷ ls) = String.◌∷◌ c l ∷ ls

-- `.split("\n")`
unfoldable pub split_lines : String → List String
unfolding push_char
split_lines String.[] = String.[] ∷ []
split_lines (String.◌∷◌ c s) =
    let rest = split_lines s in if nat_beq (code c) 10 then String.[] ∷ rest else push_char c rest

unfoldable pub lstrip : String → String
unfolding is_space
lstrip String.[] = String.[]
lstrip (String.◌∷◌ c s) = let rest = lstrip s in if is_space (code c) then rest else String.◌∷◌ c s

unfoldable pub rstrip : String → String
unfolding is_space
rstrip String.[] = String.[]
rstrip (String.◌∷◌ c s) =
    let rest = rstrip s in
    if is_empty rest && is_space (code c) then String.[] else String.◌∷◌ c rest

unfoldable pub strip : String → String
unfolding lstrip rstrip
strip s = rstrip (lstrip s)

-- The longest prefix whose characters pass the test, and what follows it.
unfoldable pub span : (ℕ → Bool) → String → String × String
span p String.[] = (String.[], String.[])
span p (String.◌∷◌ c s) =
    let rest = span p s in
    if p (code c) then (String.◌∷◌ c rest.0, rest.1) else (String.[], String.◌∷◌ c s)

unfoldable pub all_chars : (ℕ → Bool) → String → Bool
all_chars p String.[] = true
all_chars p (String.◌∷◌ c s) = p (code c) && all_chars p s

-- A test of the first character, which an empty text fails.
unfoldable pub head_is : (ℕ → Bool) → String → Bool
head_is p String.[] = false
head_is p (String.◌∷◌ c s) = p (code c)

unfoldable pub is_id_start : ℕ → Bool
is_id_start c = is_lower c || is_digit c

unfoldable pub is_id_char : ℕ → Bool
unfolding is_id_start
is_id_char c = is_id_start c || nat_beq c b'-'

-- `ID_PATTERN.fullmatch`: `^[a-z0-9][a-z0-9-]*$`
unfoldable pub is_entity_id : String → Bool
unfolding head_is is_id_start all_chars is_id_char
is_entity_id s = head_is is_id_start s && all_chars is_id_char s

-- `needle in text`
unfoldable pub contains_text : String → String → Bool
unfolding starts_with
contains_text needle String.[] = is_empty needle
contains_text needle (String.◌∷◌ c s) =
    starts_with needle (String.◌∷◌ c s) || contains_text needle s

-- `separator.join(parts)`
unfoldable pub join : String → List String → String
join separator [] = String.[]
join separator (s ∷ []) = s
join separator (s ∷ t ∷ rest) = s <> separator <> join separator (t ∷ rest)

-- `text[n:]`
unfoldable pub drop_chars : ℕ → String → String
drop_chars zero s = s
drop_chars (suc n) String.[] = String.[]
drop_chars (suc n) (String.◌∷◌ c s) = drop_chars n s

-- `text[:-1]`
unfoldable pub drop_last : String → String
drop_last String.[] = String.[]
drop_last (String.◌∷◌ c s) = if is_empty s then String.[] else String.◌∷◌ c (drop_last s)

-- `text.endswith(c)` for one character
unfoldable pub ends_with : ℕ → String → Bool
ends_with d String.[] = false
ends_with d (String.◌∷◌ c s) = if is_empty s then nat_beq (code c) d else ends_with d s

push_before : Char → Option (String × String) → Option (String × String)
push_before c none = none
push_before c (some (s, t)) = some (String.◌∷◌ c s, t)

-- The text before the first place where `needle` stands, and the text from there on; nothing where
-- `text.find(needle)` is below zero. The needle is not empty.
unfoldable pub cut : String → String → Option (String × String)
unfolding push_before starts_with
cut needle String.[] = none
cut needle (String.◌∷◌ c s) =
    let later = push_before c (cut needle s) in
    if starts_with needle (String.◌∷◌ c s) then some (String.[], String.◌∷◌ c s) else later

-- `.replace("-", " ")`
unfoldable pub dashes_to_spaces : String → String
dashes_to_spaces String.[] = String.[]
dashes_to_spaces (String.◌∷◌ c s) =
    String.◌∷◌ (if nat_beq (code c) b'-' then " " else c) (dashes_to_spaces s)

digit : ℕ → String
digit n =
    if nat_beq n 0
    then "0"
    else if nat_beq n 1
    then "1"
    else if nat_beq n 2
    then "2"
    else if nat_beq n 3
    then "3"
    else if nat_beq n 4
    then "4"
    else if nat_beq n 5
    then "5"
    else if nat_beq n 6
    then "6"
    else if nat_beq n 7
    then "7"
    else if nat_beq n 8
    then "8"
    else "9"

decimal_from : ℕ → ℕ → String
unfolding digit
decimal_from zero n = String.[]
decimal_from (suc fuel) n =
    let rest = decimal_from fuel (n / 10) in if ltb n 10 then digit n else rest <> digit (n % 10)

-- `str(n)`: a number has no more digits than one more than itself.
unfoldable pub decimal : ℕ → String
unfolding decimal_from
decimal n = decimal_from (suc n) n

-- What follows a prefix, where the text has it.
unfoldable pub strip_prefix : String → String → Option String
strip_prefix String.[] s = some s
strip_prefix (String.◌∷◌ d t) String.[] = none
strip_prefix (String.◌∷◌ d t) (String.◌∷◌ c s) =
    if nat_beq (code d) (code c) then strip_prefix t s else none

-- The text from its first newline on.
unfoldable pub drop_line : String → String
drop_line String.[] = String.[]
drop_line (String.◌∷◌ c s) =
    let rest = drop_line s in if nat_beq (code c) 10 then String.◌∷◌ c s else rest

-- `.split(c)` for one character
unfoldable pub split_on : ℕ → String → List String
unfolding push_char
split_on d String.[] = String.[] ∷ []
split_on d (String.◌∷◌ c s) =
    let rest = split_on d s in if nat_beq (code c) d then String.[] ∷ rest else push_char c rest

-- `.endswith(suffix)`
unfoldable pub has_suffix : String → String → Bool
has_suffix suffix String.[] = is_empty suffix
has_suffix suffix (String.◌∷◌ c s) = suffix == String.◌∷◌ c s || has_suffix suffix s
