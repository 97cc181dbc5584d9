-- ===== src/Campaign/Connections/Printed.antt =====
-- hosted/http/editor.py: `_connection_line`, the line that the editor writes for a connection, and
-- that standalone.py reads it back.
use warden_drydock.Prelude.{String, ◌≡◌, refl, true, false, some, arith}
use warden_drydock.Campaign.Text.{
  dashes_to_spaces, all_chars, head_is, ◌<>◌, lstrip, is_space, is_id_char, is_id_start,
  is_entity_id, is_empty, starts_with,
}
use warden_drydock.Campaign.Text.Spans.{span-append, lstrip-stop}
use warden_drydock.Campaign.Connections.{
  Parts, match_connection, expect, spaces, read_id, arrow, alias, to_end, not_bracket,
}

unfoldable pub connection_line : (String → String) → Parts → String
unfolding dashes_to_spaces
connection_line title c =
    "- `"
    <> c.relationship
    <> "` → [["
    <> c.target
    <> "|"
    <> title (dashes_to_spaces c.target)
    <> "]] (`"
    <> c.state
    <> "`) — "
    <> c.context

chars_of_id : (w : String) → is_entity_id w ≡ true → all_chars is_id_char w ≡ true
unfolding is_entity_id
chars_of_id w h = ground arith

read_id-append :
    (w t : String)
    → is_entity_id w ≡ true
    → head_is is_id_char t ≡ false
    → read_id (w <> t) ≡ some (w, t)
unfolding read_id
read_id-append w t h stop = rw (span-append is_id_char w t (chars_of_id w h) stop, h)

alias-append :
    (r t : String)
    → is_empty r ≡ false
    → all_chars not_bracket r ≡ true
    → head_is not_bracket t ≡ false
    → alias ("|" <> r <> t) ≡ some t
unfolding alias starts_with expect
alias-append r t full h stop = rw (span-append not_bracket r t h stop, full)

spaces-stop : (s : String) → head_is is_space s ≡ false → spaces (" " <> s) ≡ some s
unfolding spaces head_is is_space lstrip
spaces-stop s h = rw (lstrip-stop s h)

-- A connection whose relationship, target and state are identifiers and whose context begins with a
-- character that is no white space is read back from the line that the editor writes for it, when the
-- readable spelling of the target is not empty and has no closing bracket.
pub match_connection-connection_line :
    (title : String → String) (c : Parts)
    → is_entity_id c.relationship ≡ true
    → is_entity_id c.target ≡ true
    → is_entity_id c.state ≡ true
    → is_empty c.context ≡ false
    → head_is is_space c.context ≡ false
    → is_empty (title (dashes_to_spaces c.target)) ≡ false
    → all_chars not_bracket (title (dashes_to_spaces c.target)) ≡ true
    → match_connection (connection_line title c) ≡ some c
unfolding match_connection connection_line lstrip expect arrow to_end starts_with is_space head_is
    is_id_char not_bracket is_id_start spaces
match_connection-connection_line title c rel target state full start named plain = rw (
  read_id-append c.relationship _ rel refl,
  read_id-append c.target _ target refl,
  alias-append (title (dashes_to_spaces c.target)) _ named plain refl,
  read_id-append c.state _ state refl,
  lstrip-stop c.context start,
  full,
)
