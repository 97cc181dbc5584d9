-- ===== src/Campaign/Validate/Metadata.antt =====
-- standalone.py: the part of `validate_campaign` that reads the manifest and the lock of a campaign.
use warden_drydock.Prelude.{
  String, Bool, true, false, List, [], ◌∷◌, ◌++◌, ◌||◌, not, Option, none, some, contains,
  if◌then◌else◌, ◌==◌, string_eq,
}
use warden_drydock.Prelude.Dict.{Dict, lookup}
use warden_drydock.Prelude.Result.{Result, ok, err, ◌>>=◌}
use warden_drydock.Identifiers.{is_digest}
use warden_drydock.Campaign.Text.{is_empty, starts_with, ◌<>◌, split_on}
use warden_drydock.Campaign.Json.{
  Json, boolean, number, text, array, object, integer, float, members,
}

-- The type that a field of the manifest must have.
pub data Expected : Type 0 where
  str int : Expected

-- `REQUIRED_MANIFEST_FIELDS`
abbrev pub required_manifest_fields : List (String × Expected)
required_manifest_fields =
    ("framework", str)
    ∷ ("framework_version", str)
    ∷ ("adapter", str)
    ∷ ("adapter_version", str)
    ∷ ("ownership_model", int)
    ∷ ("campaign_name", str)
    ∷ []

-- `isinstance(value, expected_type) and value != ""`. A Boolean is an `int` of Python.
unfoldable pub is_expected : Expected → Option Json → Bool
is_expected str (some (text s)) = not (is_empty s)
is_expected int (some (number (integer s))) = true
is_expected int (some (boolean b)) = true
is_expected _ _ = false

field_errors : Dict String Json → List (String × Expected) → List String
unfolding is_expected
field_errors d [] = []
field_errors d ((field, expected) ∷ fs) =
    let rest = field_errors d fs in
    if is_expected expected (lookup field d)
    then rest
    else (".drydock.json: invalid or missing " <> field) ∷ rest

-- A file of JSON: missing, no JSON, or its value.
pub data Read : Type 0 where
  missing broken : Read
  value : Json → Read

unfoldable pub read_json : (String → Option Json) → Option String → Read
read_json loads none = missing
read_json loads (some s) = elim (loads s) [ none ↦ broken | some j ↦ value j ]

-- A call of `get` on what is no object, which ends the command.
pub data Crash : Type 0 where
  attribute_error unhashable : Crash

-- The manifest as far as it was read, with the errors found in it.
unfoldable pub check_manifest : Read → Result Crash (Dict String Json × List String)
unfolding field_errors
check_manifest missing = ok ([], "Missing .drydock.json" ∷ [])
check_manifest broken = ok ([], "Invalid .drydock.json" ∷ [])
check_manifest (value (object ms)) =
    ok (members ms, field_errors (members ms) required_manifest_fields)
check_manifest (value _) = err attribute_error

-- `lock.get("schema_version") == 1`
unfoldable pub is_one : Option Json → Bool
is_one (some (number (integer s))) = s == "1"
is_one (some (number (float finite (some whole) repr))) = whole == "1"
is_one (some (boolean b)) = b
is_one _ = false

-- `VALID_OWNERSHIP`
abbrev pub valid_ownership : List String
valid_ownership = "framework" ∷ "adapter" ∷ "shared" ∷ "campaign" ∷ "generated" ∷ []

-- `value in VALID_OWNERSHIP`, which a list or an object has no hash for.
unfoldable pub in_ownership : Option Json → Result Crash Bool
in_ownership (some (text s)) = ok (contains s valid_ownership)
in_ownership (some (array js)) = err unhashable
in_ownership (some (object ms)) = err unhashable
in_ownership _ = ok false

is_digest_value : Option Json → Bool
unfolding is_digest
is_digest_value (some (text s)) = is_digest s
is_digest_value _ = false

-- `Path(relative).is_absolute() or ".." in Path(relative).parts`
unfoldable pub is_unsafe : String → Bool
unfolding starts_with split_on
is_unsafe s = starts_with "/" s || contains ".." (split_on b'/' s)

record_errors : String → Dict String Json → Result Crash (List String)
unfolding in_ownership is_digest_value
record_errors relative record_ = in_ownership (lookup "ownership" record_) >>= λ owned. ok (
    (if owned then [] else (".drydock-lock.json: invalid ownership for " <> relative) ∷ [])
    ++ (if is_digest_value (lookup "sha256" record_)
        then []
        else (".drydock-lock.json: invalid sha256 for " <> relative) ∷ []))

entry_errors : (String → String) → String → Json → Result Crash (List String)
unfolding record_errors is_unsafe members
entry_errors repr relative j =
    if is_unsafe relative
    then ok ((".drydock-lock.json: unsafe path " <> repr relative) ∷ [])
    else elim j [
      | object ms ↦ record_errors relative (members ms)
      | _ ↦ ok ((".drydock-lock.json: invalid record for " <> relative) ∷ [])
    ]

entries_errors : (String → String) → List (String × Json) → Result Crash (List String)
unfolding entry_errors
entries_errors repr [] = ok []
entries_errors repr ((relative, j) ∷ rest) =
    entry_errors repr relative j >>= λ es. entries_errors repr rest >>= λ more. ok (es ++ more)

files_errors : (String → String) → Option Json → Result Crash (List String)
unfolding entries_errors members
files_errors repr (some (object ms)) = entries_errors repr (members ms)
files_errors repr _ = ok (".drydock-lock.json: files must be an object" ∷ [])

-- The lock as far as it was read, with the errors found in it. `repr` is Python's.
unfoldable pub check_lock : (String → String) → Read → Result Crash (Dict String Json × List String)
unfolding files_errors is_one members
check_lock repr missing = ok ([], "Missing .drydock-lock.json" ∷ [])
check_lock repr broken = ok ([], "Invalid .drydock-lock.json" ∷ [])
check_lock repr (value (object ms)) = files_errors repr (lookup "files" (members ms)) >>= λ es. ok (
  members ms,
  (if is_one (lookup "schema_version" (members ms))
        then []
        else ".drydock-lock.json: unsupported schema_version" ∷ [])
      ++ es,
)
check_lock repr (value _) = err attribute_error
