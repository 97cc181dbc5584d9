-- ===== src/Identifiers.antt =====
-- The identifier patterns of hosted/revisions/models.py, hosted/proposals/service.py and
-- hosted/engine/models.py, as tests on the characters of the whole text.
use warden_drydock.Prelude.{
  ℕ, String, Bool, true, false, List, [], ◌∷◌, ◌&&◌, ◌||◌, leb, nat_beq, length, all, if◌then◌else◌,
}
use warden_drydock.Prelude.Text.{codes, is_lower, is_digit}

is_word : ℕ → Bool
is_word c = is_lower c || is_digit c

-- The rest of `[a-z0-9]*(?:_[a-z0-9]+)*`; the test says whether a segment has begun.
id_from : Bool → List ℕ → Bool
unfolding is_word
id_from inside [] = inside
id_from inside (c ∷ s) =
    let within = id_from true s in
    let next = id_from false s in
    if is_word c then within else if nat_beq c b'_' && inside then next else false

-- `^[a-z][a-z0-9]*(?:_[a-z0-9]+)*$`
matches_id : List ℕ → Bool
unfolding id_from
matches_id [] = false
matches_id (c ∷ s) = is_lower c && id_from true s

-- `_require_id`, `_require_public_id` and `_is_public_id`
unfoldable pub is_public_id : String → Bool
unfolding matches_id
is_public_id value = let n = length (codes value) in leb 3 n && leb n 80 && matches_id (codes value)

is_domain_char : ℕ → Bool
unfolding is_word
is_domain_char c = is_word c || nat_beq c b'_' || nat_beq c b'-'

-- `^[a-z0-9][a-z0-9_-]*$`
matches_domain : List ℕ → Bool
unfolding is_domain_char
matches_domain [] = false
matches_domain (c ∷ s) = is_word c && all is_domain_char s

-- `_require_domain_id`
unfoldable pub is_domain_id : String → Bool
unfolding matches_domain
is_domain_id value =
    let n = length (codes value) in leb 1 n && leb n 200 && matches_domain (codes value)

is_hex : ℕ → Bool
is_hex c = is_digit c || (leb b'a' c && leb c b'f')

-- `_require_digest`: `^[a-f0-9]{64}$`
unfoldable pub is_digest : String → Bool
unfolding is_hex
is_digest value = nat_beq (length (codes value)) 64 && all is_hex (codes value)
