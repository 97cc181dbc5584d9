-- ===== src/Atlas/Models.antt =====
-- hosted/projections/atlas_models.py: the dataclasses that a projection is made of, with what their
-- constructors check.
use Prim.Native.Char.{code}
use Prim.Native.String.{count, ◌++◌ as append_text}
use warden_drydock.Prelude.{
  ℕ, suc, String, Bool, true, false, not, List, [], ◌∷◌, Option, none, some, ◌&&◌, ◌||◌, ◌==◌,
  nat_eq, string_eq, option_eq, pair_eq, list_eq, leb, ltb, contains, map, if◌then◌else◌,
}
use warden_drydock.Prelude.Dict.{Dict, lookup, insert, keys}
use warden_drydock.Prelude.Sets.{distinct}
use warden_drydock.Prelude.Sort.{sort}
use warden_drydock.Prelude.Text.{str_leb}
use warden_drydock.Prelude.Result.{Result, ok, ◌>>◌, require}
use warden_drydock.Identifiers.{is_public_id, is_digest}
use warden_drydock.Campaign.Text.{is_entity_id, normalize_newlines}
use warden_drydock.Revisions.Models.{RevisionError, value_error}

-- `KNOWN_STATUSES`
abbrev pub known_statuses : List String
known_statuses = "idea" ∷ "draft" ∷ "review" ∷ "canon" ∷ "revealed" ∷ "archived" ∷ "accepted" ∷ []

unfoldable pub within : ℕ → ℕ → String → Bool
within low high s = leb low (count s) && leb (count s) high

-- `require_domain_id` of this module
unfoldable pub is_record_id : String → Bool
unfolding within is_entity_id
is_record_id s = within 1 80 s && is_entity_id s

pub data Authority : Type 0 where
  preparation canon revealed : Authority

unfoldable pub authority_beq : Authority → Authority → Bool
authority_beq preparation preparation = true
authority_beq canon canon = true
authority_beq revealed revealed = true
authority_beq _ _ = false

pub data StatusKind : Type 0 where
  known missing unknown : StatusKind

unfoldable pub kind_beq : StatusKind → StatusKind → Bool
kind_beq known known = true
kind_beq missing missing = true
kind_beq unknown unknown = true
kind_beq _ _ = false

pub record RawStatus : Type 0 where
  pub kind : StatusKind
  pub value : Option String

unfoldable pub status_beq : RawStatus → RawStatus → Bool
unfolding kind_beq
status_beq a b = kind_beq a.kind b.kind && a.value == b.value

has_control : String → Bool
has_control String.[] = false
has_control (String.◌∷◌ c s) = ltb (code c) 32 || has_control s

-- The checks of `RawStatus` on a value.
check_value : StatusKind → String → Result RevisionError RawStatus
unfolding within has_control kind_beq
check_value kind value = do
  require (within 1 80 value) value_error
  require (not (has_control value)) value_error
  require (not (kind_beq kind known && not (contains value known_statuses))) value_error
  require (not (kind_beq kind unknown && contains value known_statuses)) value_error
  ok (record { kind = kind; value = some value })

-- `RawStatus.from_value`
unfoldable pub status_from : Option String → Result RevisionError RawStatus
unfolding check_value
status_from none = ok (record { kind = missing; value = none })
status_from (some value) =
    if value == ""
    then ok (record { kind = missing; value = none })
    else check_value (if contains value known_statuses then known else unknown) value

unfoldable pub derive_authority : RawStatus → Authority
unfolding kind_beq
derive_authority status =
    if kind_beq status.kind known && status.value == some "canon"
    then canon
    else if kind_beq status.kind known && status.value == some "revealed"
    then revealed
    else preparation

pub record AtlasRecord : Type 0 where
  pub record_id : String
  pub record_type : String
  pub name : String
  pub raw_status : RawStatus
  pub authority : Authority
  pub summary : String
  pub content : String
  pub content_digest : String

pub record AtlasEdge : Type 0 where
  pub edge_id : String
  pub occurrence_order : ℕ
  pub source_record_id : String
  pub target_record_id : String
  pub relationship : String
  pub state : String
  pub context : String

pub data HistoryChangeKind : Type 0 where
  added removed content_changed metadata_changed authority_transition : HistoryChangeKind

-- `HISTORY_KIND_ORDER`
unfoldable pub kind_order : HistoryChangeKind → ℕ
kind_order added = 0
kind_order removed = 1
kind_order content_changed = 2
kind_order metadata_changed = 3
kind_order authority_transition = 4

pub record AtlasHistoryChange : Type 0 where
  pub record_id : String
  pub change_kind : HistoryChangeKind
  pub link_revision_id : String
  pub before_content_digest : Option String
  pub after_content_digest : Option String
  pub before_status : Option RawStatus
  pub after_status : Option RawStatus
  pub from_authority : Option Authority
  pub to_authority : Option Authority

pub record AtlasHistoryEntry : Type 0 where
  pub revision_id : String
  pub parent_revision_id : Option String
  pub ordinal : ℕ
  pub tree_digest : String
  pub change_digest : String
  pub changes : List AtlasHistoryChange
  pub proposal : Option (String × ℕ)

-- The records, connections and history of one revision.
pub record AtlasProjectionBundle : Type 0 where
  pub campaign_id : String
  pub campaign_name : String
  pub adapter_id : String
  pub revision_id : String
  pub parent_revision_id : Option String
  pub ordinal : ℕ
  pub tree_digest : String
  pub projection_version : ℕ
  pub records : List AtlasRecord
  pub edges : List AtlasEdge
  pub history_entry : AtlasHistoryEntry
  pub projection_digest : String

-- The sort key of a change, and its order.
abbrev pub change_key : AtlasHistoryChange → String × ℕ
unfolding kind_order
change_key c = (c.record_id, kind_order c.change_kind)

unfoldable pub change_leb : AtlasHistoryChange → AtlasHistoryChange → Bool
unfolding change_key
change_leb c d =
    if c.record_id == d.record_id
    then leb (kind_order c.change_kind) (kind_order d.change_kind)
    else str_leb c.record_id d.record_id

is_some : Option String → Bool
is_some none = false
is_some (some s) = true

optional_digest : Option String → Bool
unfolding is_digest
optional_digest none = true
optional_digest (some s) = is_digest s

-- Which of the two digests a kind of change has.
binds_digests : HistoryChangeKind → Bool → Bool → Bool
binds_digests added before after = not before && after
binds_digests removed before after = before && not after
binds_digests _ before after = before && after

is_visible : Option Authority → Option Authority → Bool
unfolding authority_beq
is_visible (some a) (some b) = not (authority_beq a b)
is_visible _ _ = false

shows_transition : AtlasHistoryChange → Bool
unfolding is_visible
shows_transition c = elim c.change_kind [
  | authority_transition ↦ is_visible c.from_authority c.to_authority
  | _ ↦ true
]

-- The checks of `AtlasHistoryChange`.
unfoldable pub is_valid_change : AtlasHistoryChange → Bool
unfolding is_record_id is_public_id optional_digest binds_digests is_some shows_transition
is_valid_change c =
    is_record_id c.record_id
    && is_public_id c.link_revision_id
    && optional_digest c.before_content_digest
    && optional_digest c.after_content_digest
    && binds_digests c.change_kind (is_some c.before_content_digest)
        (is_some c.after_content_digest)
    && shows_transition c

optional_public_id : Option String → Bool
unfolding is_public_id
optional_public_id none = true
optional_public_id (some s) = is_public_id s

is_valid_proposal : Option (String × ℕ) → Bool
unfolding is_public_id
is_valid_proposal none = true
is_valid_proposal (some (id, version)) = is_public_id id && leb 1 version

-- `self.changes == sorted(self.changes)`, on the keys of the changes, which are distinct as well.
unfoldable pub is_uniquely_ordered : List AtlasHistoryChange → Bool
unfolding change_leb
is_uniquely_ordered cs =
    map change_key (sort change_leb cs) == map change_key cs && distinct (map change_key cs)

-- The checks of `AtlasHistoryEntry`.
unfoldable pub is_valid_entry : AtlasHistoryEntry → Bool
unfolding is_public_id is_digest optional_public_id is_valid_proposal is_uniquely_ordered
is_valid_entry e =
    is_public_id e.revision_id
    && optional_public_id e.parent_revision_id
    && is_digest e.tree_digest
    && is_digest e.change_digest
    && leb 1 e.ordinal
    && is_valid_proposal e.proposal
    && is_uniquely_ordered e.changes

-- `facet_counts`: each value with the number of its occurrences, sorted.
bump : Option ℕ → ℕ
bump none = 1
bump (some n) = suc n

tally : List String → Dict String ℕ → Dict String ℕ
unfolding bump
tally [] d = d
tally (s ∷ ss) d = tally ss (insert s (bump (lookup s d)) d)

or_zero : Option ℕ → ℕ
or_zero none = 0
or_zero (some n) = n

unfoldable pub facet_counts : List String → List (String × ℕ)
unfolding tally or_zero
facet_counts ss =
    let counts = tally ss [] in
    map (λ v. (v, or_zero (lookup v counts))) (sort str_leb (keys counts))

-- `sha256` is hashlib's, of the UTF-8 text.
module _ (sha256 : String → String) where
  -- The checks of `AtlasRecord`.
  unfoldable pub is_valid_record : AtlasRecord → Bool
  unfolding is_record_id within authority_beq derive_authority normalize_newlines
  is_valid_record r =
      is_record_id r.record_id
      && is_record_id r.record_type
      && within 1 200 r.name
      && authority_beq r.authority (derive_authority r.raw_status)
      && normalize_newlines r.content == r.content
      && sha256 (normalize_newlines r.content) == r.content_digest

  -- `dumps` is the JSON text of the three parts of an edge's identity.
  module _ (dumps : ℕ → String → String → String) where
    unfoldable pub edge_id : String → String → ℕ → Result RevisionError String
    unfolding is_public_id is_record_id
    edge_id revision source order = do
      require (is_public_id revision) value_error
      require (is_record_id source) value_error
      require (leb 1 order) value_error
      ok (append_text "edge_" (sha256 (dumps order revision source)))

    -- The checks of `AtlasEdge`.
    unfoldable pub is_valid_edge : AtlasEdge → Bool
    unfolding is_public_id is_record_id
    is_valid_edge e =
        is_public_id e.edge_id
        && is_record_id e.source_record_id
        && is_record_id e.target_record_id
        && is_record_id e.relationship
        && is_record_id e.state
        && leb 1 e.occurrence_order
        && leb 1 (count e.context)
