-- ===== src/Revisions/Repository.antt =====
-- hosted/revisions/repository.py: `InMemoryWorkflowRepository`. Each method returns the result and
-- the repository that it leaves.
pub mod Chain
pub mod Index
use warden_drydock.Prelude.{
  ℕ, ◌+◌, String, Bool, true, false, not, Option, none, some, List, [], ◌∷◌, ◌++◌, ◌&&◌, ◌==◌,
  nat_eq, string_eq, option_eq, filter, any, if◌then◌else◌,
}
use warden_drydock.Prelude.Dict.{Dict, lookup, insert, values}
use warden_drydock.Prelude.Result.{Result, ok, err}
use warden_drydock.Revisions.Models.{
  RevisionError, stale_head, publication_intent, value_error, key_error, IntentStatus, finalized,
  quarantined, status_beq, SnapshotManifest, PublicationIntent, intent_beq,
}

-- A head is the revision and its ordinal.
abbrev pub Head : Type 0
Head = Option (String × ℕ)

pub record Repository : Type 0 where
  pub intents : Dict String PublicationIntent
  pub heads : Dict String (String × ℕ)
  pub audit : List (String × IntentStatus)

abbrev pub empty : Repository
empty = record { intents = []; heads = []; audit = [] }

-- `expected` and `expected_ordinal` of the compare-and-swap.
unfoldable pub head_revision : Head → Option String
head_revision none = none
head_revision (some h) = some h.0

unfoldable pub next_ordinal : Head → ℕ
next_ordinal none = 1
next_ordinal (some h) = h.1 + 1

unfoldable pub conflicts_with : PublicationIntent → Option PublicationIntent → Bool
conflicts_with i none = false
conflicts_with i (some j) = not (intent_beq j i)

-- The intents that hold the token under another identity.
unfoldable pub token_owned : PublicationIntent → List PublicationIntent → Bool
token_owned i =
    any λ (j : PublicationIntent).
      j.intent_token == i.intent_token && not (j.intent_id == i.intent_id)

unfoldable pub add_intent :
    PublicationIntent → Repository → Result RevisionError (Unit {0}) × Repository
unfolding conflicts_with token_owned
add_intent i r =
    if conflicts_with i (lookup i.intent_id r.intents)
    then (err value_error, r)
    else if token_owned i (values r.intents)
    then (err publication_intent, r)
    else (ok tt, record r { intents = insert i.intent_id i r.intents })

unfoldable pub matching_intents : String → Repository → List PublicationIntent
matching_intents token r =
    filter (λ (i : PublicationIntent). i.intent_token == token) (values r.intents)

-- The branch of `finalize_head` that has found the stored intent.
unfoldable pub compare_and_swap :
    PublicationIntent → PublicationIntent → Repository → Result RevisionError Bool × Repository
unfolding head_revision next_ordinal
compare_and_swap i stored r =
    let current = lookup i.campaign_id r.heads in
    if status_beq stored.status finalized
    then (ok false, r)
    else if not (head_revision current == i.parent_revision && next_ordinal current == i.ordinal)
    then (err stale_head, r)
    else (
      ok true,
      record {
        intents = insert i.intent_id (record i { status = finalized }) r.intents;
        heads = insert i.campaign_id (i.revision_id, i.ordinal) r.heads;
        audit = r.audit ++ (i.intent_id, finalized) ∷ [];
      },
    )

finalize_found :
    PublicationIntent
    → Option PublicationIntent
    → Repository
    → Result RevisionError Bool × Repository
unfolding compare_and_swap
finalize_found i none r = (err key_error, r)
finalize_found i (some stored) r = compare_and_swap i stored r

unfoldable pub finalize_head :
    PublicationIntent → Repository → Result RevisionError Bool × Repository
unfolding finalize_found
finalize_head i r = finalize_found i (lookup i.intent_id r.intents) r

quarantine_found :
    String → Option PublicationIntent → Repository → Result RevisionError (Unit {0}) × Repository
quarantine_found id none r = (err key_error, r)
quarantine_found id (some i) r = (
  ok tt,
  record r {
    intents = insert id (record i { status = quarantined }) r.intents;
    audit = r.audit ++ (id, quarantined) ∷ [];
  },
)

unfoldable pub quarantine_intent :
    String → Repository → Result RevisionError (Unit {0}) × Repository
unfolding quarantine_found
quarantine_intent id r = quarantine_found id (lookup id r.intents) r

unfoldable pub head : String → Repository → Option String
unfolding head_revision
head campaign r = head_revision (lookup campaign r.heads)

-- The seven bindings that `publication_eligible` compares.
unfoldable pub binds : PublicationIntent → SnapshotManifest → Bool
binds i m =
    i.campaign_id == m.campaign_id
    && i.revision_id == m.revision_id
    && i.parent_revision == m.parent_revision
    && i.ordinal == m.ordinal
    && i.tree_digest == m.tree_digest
    && i.change_digest == m.change_digest

is_eligible : List PublicationIntent → SnapshotManifest → Bool
unfolding binds
is_eligible (i ∷ []) m = status_beq i.status finalized && binds i m
is_eligible _ m = false

unfoldable pub publication_eligible : SnapshotManifest → Repository → Bool
unfolding is_eligible matching_intents
publication_eligible m r = is_eligible (matching_intents m.publication_intent_token r) m
