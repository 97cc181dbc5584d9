-- ===== src/Atlas/Records.antt =====
-- hosted/projections/atlas_rebuild.py: `_parse_records`, the records and connections of a snapshot.
-- `decode` reads bytes as UTF-8, and `loads` and `casefold` are Python's.
pub mod Ids
pub mod Bound
use Prim.Native.Nat.{compare, Ordering}
use warden_drydock.Prelude.{
  ℕ, zero, suc, ◌+◌, String, Bool, true, false, not, List, [], ◌∷◌, ◌++◌, Option, none, some, ◌&&◌,
  ◌||◌, ◌==◌, nat_eq, string_eq, leb, contains, map, if◌then◌else◌,
}
use warden_drydock.Prelude.Dict.{Dict, lookup}
use warden_drydock.Prelude.Sort.{sort}
use warden_drydock.Prelude.Text.{str_leb}
use warden_drydock.Prelude.Result.{Result, ok, err, ◌>>=◌, ◌>>◌, require, or_raise}
use warden_drydock.Campaign.Text.{
  is_empty, has_suffix, starts_with, strip, lstrip, split_on, normalize_newlines, join, drop_chars,
}
use warden_drydock.Campaign.Json.{Json, text, object, members}
use warden_drydock.Campaign.Connections.{Connection, ParseError, section_lines, parse_connections}
use warden_drydock.Campaign.Frontmatter.{frontmatter, text_field}
use warden_drydock.Campaign.Graph.{or_default, or_else}
use warden_drydock.Campaign.Indexes.{text_or}
use warden_drydock.Revisions.Models.{
  RevisionError, value_error, file_not_found, FileHash, SnapshotManifest,
}
use warden_drydock.Revisions.Canonical.{SourceEntry, SourceTree, EntryKind, regular}
use warden_drydock.Atlas.Models.{
  AtlasRecord, AtlasEdge, RawStatus, status_from, derive_authority, within, edge_id,
  is_valid_record, is_valid_edge,
}

regular_bytes : EntryKind → Option String
regular_bytes (regular bytes) = some bytes
regular_bytes _ = none

-- The bytes of a regular file at a path.
unfoldable pub bytes_at : String → List SourceEntry → Option String
unfolding regular_bytes
bytes_at path [] = none
bytes_at path (x ∷ xs) =
    let rest = bytes_at path xs in if x.path == path then regular_bytes x.kind else rest

-- The lines that are neither blank nor a comment.
summary_lines : List (ℕ × String) → List String
unfolding strip lstrip starts_with
summary_lines [] = []
summary_lines ((_, line) ∷ ls) =
    let rest = summary_lines ls in
    if not (is_empty (strip line)) && not (starts_with "<!--" (lstrip line))
    then strip line ∷ rest
    else rest

-- `_summary`
unfoldable pub summary : (String → String) → String → String
unfolding summary_lines section_lines join text_or
summary casefold content =
    text_or "No summary recorded."
      (join " " (summary_lines (section_lines casefold content "Summary")))

-- `parsed.get(key, default)`, which must be a text to be accepted
text_at : String → String → Dict String Json → Result RevisionError String
text_at key default d = elim (lookup key d) [
  | none ↦ ok default
  | some j ↦ elim j [ text s ↦ ok s | _ ↦ err value_error ]
]

object_of : Json → Result RevisionError (Dict String Json)
unfolding members
object_of (object ms) = ok (members ms)
object_of _ = err value_error

head_or : String → List String → String
head_or d [] = d
head_or d (p ∷ ps) = p

-- Not Markdown, or in a directory that holds no records.
unfoldable pub is_passed_over : String → Bool
unfolding split_on has_suffix head_or
is_passed_over path =
    not (has_suffix ".md" path)
    || contains (head_or "" (split_on b'/' path)) ("templates" ∷ "docs" ∷ "00-drydock" ∷ [])

by_id : AtlasRecord → AtlasRecord → Bool
by_id r s = str_leb r.record_id s.record_id

-- `key=(source_record_id, occurrence_order, edge_id)`
by_occurrence : AtlasEdge → AtlasEdge → Bool
by_occurrence e f =
    if not (e.source_record_id == f.source_record_id)
    then str_leb e.source_record_id f.source_record_id
    else if not (e.occurrence_order == f.occurrence_order)
    then leb e.occurrence_order f.occurrence_order
    else str_leb e.edge_id f.edge_id

abbrev pub ids_of : List AtlasRecord → List String
ids_of rs = map (λ (r : AtlasRecord). r.record_id) rs

-- What a snapshot projects to.
pub record Parsed : Type 0 where
  pub campaign_name : String
  pub adapter_id : String
  pub records : List AtlasRecord
  pub edges : List AtlasEdge

unfoldable pub edge_of : String → String → ℕ → Connection → AtlasEdge
edge_of id source order c = record {
  edge_id = id;
  occurrence_order = order;
  source_record_id = source;
  target_record_id = c.target_id;
  relationship = c.relationship;
  state = c.state;
  context = c.context;
}

module _ (sha256 : String → String) (dumps : ℕ → String → String → String)
    (casefold : String → String) (decode : String → Option String)
    (loads : String → Option Json) where
  -- The name and the adapter of the campaign.
  read_metadata : String → Option String → Result RevisionError (String × String)
  unfolding text_at object_of normalize_newlines
  read_metadata campaign none = ok (campaign, "mothership")
  read_metadata campaign (some bytes) = do
    decoded ← or_raise (decode bytes) value_error
    value ← or_raise (loads (normalize_newlines decoded)) value_error
    parsed ← object_of value
    name ← text_at "campaign_name" campaign parsed
    adapter ← text_at "adapter" "mothership" parsed
    ok (name, adapter)

  unfoldable pub record_of : String → String → Dict String Json → RawStatus → AtlasRecord
  unfolding derive_authority summary or_default or_else text_field normalize_newlines
  record_of id content metadata status = record {
    record_id = id;
    record_type = or_default "unknown" (text_field "type" metadata);
    name = or_else id (text_field "name" metadata);
    raw_status = status;
    authority = derive_authority status;
    summary = summary casefold content;
    content = content;
    content_digest = sha256 (normalize_newlines content);
  }

  -- The record of a file that declares an ID; its constructor checks it.
  made_record : String → String → Dict String Json → Result RevisionError AtlasRecord
  unfolding status_from is_valid_record record_of text_field
  made_record id content metadata = do
    status ← status_from (text_field "status" metadata)
    require (is_valid_record sha256 (record_of id content metadata status)) value_error
    ok (record_of id content metadata status)

  -- The records so far, with the one of this file where it declares an ID that is not among them.
  with_file :
      Option String
      → String
      → Dict String Json
      → List AtlasRecord
      → Result RevisionError (List AtlasRecord)
  unfolding made_record
  with_file none content metadata rs = ok rs
  with_file (some id) content metadata rs =
      if is_empty id
      then ok rs
      else if contains id (ids_of rs)
      then err value_error
      else (made_record id content metadata >>= λ r. ok (rs ++ r ∷ []))

  read_file : String → List SourceEntry → List AtlasRecord → Result RevisionError (List AtlasRecord)
  unfolding with_file bytes_at frontmatter text_field normalize_newlines
  read_file path tree rs = do
    bytes ← or_raise (bytes_at path tree) file_not_found
    decoded ← or_raise (decode bytes) value_error
    let content = normalize_newlines decoded
    let metadata = frontmatter loads content
    with_file (text_field "id" metadata) content metadata rs

  file_records :
      String → List SourceEntry → List AtlasRecord → Result RevisionError (List AtlasRecord)
  unfolding read_file is_passed_over
  file_records path tree rs = if is_passed_over path then ok rs else read_file path tree rs

  unfoldable pub read_records :
      List FileHash → List SourceEntry → List AtlasRecord → Result RevisionError (List AtlasRecord)
  unfolding file_records
  read_records [] tree rs = ok rs
  read_records (f ∷ fs) tree rs =
      file_records f.relative_path tree rs >>= λ more. read_records fs tree more

  made_edge : String → String → ℕ → Connection → Result RevisionError AtlasEdge
  unfolding edge_id is_valid_edge edge_of
  made_edge revision source order c = do
    id ← edge_id sha256 dumps revision source order
    require (is_valid_edge sha256 dumps (edge_of id source order c)) value_error
    ok (edge_of id source order c)

  -- The connections of one record, counted from `order`.
  unfoldable pub record_edges :
      List String → String → String → ℕ → List Connection → Result RevisionError (List AtlasEdge)
  unfolding made_edge
  record_edges known revision source order [] = ok []
  record_edges known revision source order (c ∷ cs) = do
    require (contains c.target_id known) value_error
    edge ← made_edge revision source order c
    rest ← record_edges known revision source (suc order) cs
    ok (edge ∷ rest)

  well_formed : List ParseError → Bool
  well_formed [] = true
  well_formed (e ∷ es) = false

  unfoldable pub all_edges :
      List String → String → List AtlasRecord → Result RevisionError (List AtlasEdge)
  unfolding record_edges well_formed parse_connections
  all_edges known revision [] = ok []
  all_edges known revision (r ∷ rs) = do
    let parsed = parse_connections casefold r.content r.record_id ""
    require (well_formed parsed.1) value_error
    here ← record_edges known revision r.record_id 1 parsed.0
    rest ← all_edges known revision rs
    ok (here ++ rest)

  -- `_parse_records`
  unfoldable pub parse_records : SnapshotManifest → SourceTree → Result RevisionError Parsed
  unfolding read_metadata read_records all_edges by_id by_occurrence within bytes_at
  parse_records m tree = do
    metadata ← read_metadata m.campaign_id (bytes_at ".drydock.json" tree.entries)
    require (within 1 200 metadata.0) value_error
    require (metadata.1 == "mothership") value_error
    found ← read_records m.files tree.entries []
    let records = sort by_id found
    edges ← all_edges (ids_of records) m.revision_id records
    ok (record {
      campaign_name = metadata.0;
      adapter_id = metadata.1;
      records = records;
      edges = sort by_occurrence edges;
    })
