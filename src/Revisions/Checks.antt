-- ===== src/Revisions/Checks.antt =====
-- hosted/revisions/models.py: what the constructors of the dataclasses check, and the path check
-- that hosted/revisions/canonical.py repeats.
use warden_drydock.Prelude.{
  ℕ, String, Bool, true, not, Option, none, some, List, [], ◌∷◌, ◌&&◌, ◌||◌, leb, ◌==◌, nat_eq,
  string_eq, option_eq, pair_eq, map, contains, filter, list_eq, if◌then◌else◌,
}
use warden_drydock.Prelude.Text.{codes, str_leb}
use warden_drydock.Prelude.Result.{Result, ok, err, require, ◌>>◌}
use warden_drydock.Prelude.Sort.{sort}
use warden_drydock.Identifiers.{is_public_id, is_digest}
use warden_drydock.Revisions.Models.{
  RevisionError, value_error, index_error, FileHash, SnapshotManifest, PublicationIntent, file_eq,
}

-- The components between slashes.
grow : ℕ → List (List ℕ) → List (List ℕ)
grow c [] = (c ∷ []) ∷ []
grow c (part ∷ parts) = (c ∷ part) ∷ parts

split_slash : List ℕ → List (List ℕ)
unfolding grow
split_slash [] = [] ∷ []
split_slash (c ∷ s) = let rest = split_slash s in if c == b'/' then [] ∷ rest else grow c rest

is_part : List ℕ → Bool
is_part part = not (part == [] || part == b'.' ∷ [])

-- `PurePosixPath.parts` of a relative path: "." and empty components are dropped.
unfoldable pub path_parts : String → List (List ℕ)
unfolding split_slash is_part filter
path_parts path = filter is_part (split_slash (codes path))

take_first : List ℕ → List ℕ
take_first [] = []
take_first (c ∷ s) = c ∷ []

is_absolute : String → Bool
unfolding take_first
is_absolute path = contains b'/' (take_first (codes path))

-- The last test of the condition looks at `parts[0]`, which a path such as "." does not have.
first_part_plain : List (List ℕ) → RevisionError → Result RevisionError (Unit {0})
first_part_plain [] e = err index_error
first_part_plain (part ∷ parts) e = require (not (contains b':' part)) e

-- The path condition of `FileHash.__post_init__` and `_safe_relative_path`, with its exception.
unfoldable pub check_path : String → RevisionError → Result RevisionError (Unit {0})
unfolding is_absolute first_part_plain path_parts
check_path path e = do
  require (not (path == "")) e
  require (not (is_absolute path)) e
  require (not (contains (b'.' ∷ b'.' ∷ []) (path_parts path))) e
  require (not (contains 92 (codes path))) e
  first_part_plain (path_parts path) e

-- `FileHash(path, digest)`
unfoldable pub file_hash : String → String → Result RevisionError FileHash
unfolding check_path is_digest
file_hash path digest = do
  check_path path value_error
  require (is_digest digest) value_error
  ok (record { relative_path = path; sha256 = digest })

unfoldable pub file_leb : FileHash → FileHash → Bool
file_leb f g = str_leb f.relative_path g.relative_path

abbrev pub paths_of : List FileHash → List String
paths_of = map (λ (f : FileHash). f.relative_path)

-- Each path differs from all that follow it: `len({paths}) == len(files)`.
unfoldable pub all_distinct : List String → Bool
all_distinct [] = true
all_distinct (p ∷ ps) = not (contains p ps) && all_distinct ps

optional_id : Option String → Bool
unfolding is_public_id
optional_id none = true
optional_id (some value) = is_public_id value

-- `SnapshotManifest.__post_init__`
unfoldable pub check_manifest : SnapshotManifest → Result RevisionError SnapshotManifest
unfolding is_public_id optional_id is_digest
check_manifest m = do
  require (is_public_id m.campaign_id) value_error
  require (is_public_id m.revision_id) value_error
  require (is_public_id m.publication_intent_token) value_error
  require (optional_id m.parent_revision) value_error
  require (is_digest m.tree_digest) value_error
  require (is_digest m.validation_contract_digest) value_error
  require (is_digest m.change_digest) value_error
  require (m.manifest_version == 1 && leb 1 m.ordinal) value_error
  require (not (m.files == []) && sort file_leb m.files == m.files) value_error
  require (all_distinct (paths_of m.files)) value_error
  ok m

-- `PublicationIntent.__post_init__`
unfoldable pub check_intent : PublicationIntent → Result RevisionError PublicationIntent
unfolding is_public_id optional_id is_digest
check_intent i = do
  require (is_public_id i.intent_id) value_error
  require (is_public_id i.intent_token) value_error
  require (is_public_id i.campaign_id) value_error
  require (is_public_id i.revision_id) value_error
  require (optional_id i.parent_revision) value_error
  require (is_digest i.tree_digest) value_error
  require (is_digest i.change_digest) value_error
  require (leb 1 i.ordinal) value_error
  ok i
