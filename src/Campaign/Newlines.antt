-- ===== src/Campaign/Newlines.antt =====
-- standalone.py: a record is read through the same normalization of line ends by every command.
use Prim.Native.Char.{code}
use warden_drydock.Prelude.{
  ℕ, String, ◌≡◌, refl, Bool, true, not, nat_beq, arith, if◌then◌else◌, Option,
}
use warden_drydock.Campaign.Text.{normalize_newlines, join_crlf, replace_cr, all_chars, starts_with}
use warden_drydock.Campaign.Json.{Json}
use warden_drydock.Campaign.Frontmatter.{frontmatter, body}
use warden_drydock.Campaign.Connections.{section_lines, parse_connections}

-- The text with its line ends in the other convention.
pub to_crlf : String → String
to_crlf String.[] = String.[]
to_crlf (String.◌∷◌ c s) =
    let rest = to_crlf s in
    if nat_beq (code c) 10 then String.◌∷◌ "\r" (String.◌∷◌ c rest) else String.◌∷◌ c rest

abbrev pub not_return : ℕ → Bool
not_return c = not (nat_beq c 13)

join_crlf-to_crlf : (s : String) → all_chars not_return s ≡ true → join_crlf (to_crlf s) ≡ s
unfolding join_crlf to_crlf all_chars starts_with
join_crlf-to_crlf String.[] h = refl
join_crlf-to_crlf (String.◌∷◌ c s) h = ground (arith, h, join_crlf-to_crlf s)

join_crlf_clean : (s : String) → all_chars not_return s ≡ true → join_crlf s ≡ s
unfolding join_crlf all_chars
join_crlf_clean String.[] h = refl
join_crlf_clean (String.◌∷◌ c s) h = ground (arith, h, join_crlf_clean s)

replace_cr_clean : (s : String) → all_chars not_return s ≡ true → replace_cr s ≡ s
unfolding replace_cr all_chars
replace_cr_clean String.[] h = refl
replace_cr_clean (String.◌∷◌ c s) h = ground (arith, h, replace_cr_clean s)

normalize_newlines-to_crlf :
    (s : String) → all_chars not_return s ≡ true → normalize_newlines (to_crlf s) ≡ s
unfolding normalize_newlines
normalize_newlines-to_crlf s h = rw (join_crlf-to_crlf s h) (replace_cr_clean s h)

normalize_newlines_clean : (s : String) → all_chars not_return s ≡ true → normalize_newlines s ≡ s
unfolding normalize_newlines
normalize_newlines_clean s h = rw (join_crlf_clean s h) (replace_cr_clean s h)

-- A record without carriage returns is read the same after its line ends became CRLF: its fields, its
-- body, the lines of each section, and its connections with their line numbers.
pub frontmatter-to_crlf :
    (casefold : String → String) (loads : String → Option Json) (s source path heading : String)
    → all_chars not_return s ≡ true
    → (frontmatter loads (to_crlf s) ≡ frontmatter loads s)
      × (body (to_crlf s) ≡ body s)
      × (section_lines casefold (to_crlf s) heading ≡ section_lines casefold s heading)
      × (parse_connections casefold (to_crlf s) source path
          ≡ parse_connections casefold s source path)
unfolding frontmatter body section_lines parse_connections
frontmatter-to_crlf casefold loads s source path heading h =
    rw (normalize_newlines-to_crlf s h, normalize_newlines_clean s h) (refl, refl, refl, refl)
