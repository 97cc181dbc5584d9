-- ===== src/Generations/Models.antt =====
-- hosted/ai/models.py: generations and their requests; hosted/ai/repository.py: the generations of
-- `InMemoryAIRepository`.
use warden_drydock.Prelude.{
  ℕ, String, Bool, true, false, not, Option, none, some, List, [], ◌∷◌, ◌&&◌, ◌||◌, ◌==◌, leb,
  length, all, nat_eq, string_eq, option_eq, list_eq, ◌≡◌, ◌↔◌, arith, Eq, nat_beq, if◌then◌else◌,
  filter,
}
use text.Mathlib.TextEquality.{eq_iff}
use warden_drydock.Prelude.Text.{codes, is_lower, is_digit}
use warden_drydock.Prelude.Dict.{Dict, lookup, insert, values}
use warden_drydock.Prelude.Result.{Result, ok, err}
use warden_drydock.Identifiers.{is_digest}

pub data GenerationError : Type 0 where
  value_error unsafe_binding idempotency_digest_conflict provider_error : GenerationError
  consent_required key_error : GenerationError

pub data Action : Type 0 where
  ask check generate : Action

unfoldable pub action_beq : Action → Action → Bool
action_beq ask ask = true
action_beq check check = true
action_beq generate generate = true
action_beq _ _ = false

pub record SourceExcerpt : Type 0 where
  pub source_id : String
  pub authority : String
  pub text : String
  pub order : ℕ

unfoldable pub excerpt_beq : SourceExcerpt → SourceExcerpt → Bool
excerpt_beq x y =
    x.source_id == y.source_id
    && x.authority == y.authority
    && x.text == y.text
    && x.order == y.order

pub excerpt_beq_iff : (x y : SourceExcerpt) → (excerpt_beq x y ≡ true) ↔ (x ≡ y)
unfolding excerpt_beq
excerpt_beq_iff x y =
    ground
      (arith, eq_iff x.source_id y.source_id, eq_iff x.authority y.authority, eq_iff x.text y.text)

instance abbrev pub excerpt_eq : Eq SourceExcerpt
excerpt_eq = record { beq = excerpt_beq; beq_iff = excerpt_beq_iff }

pub record SourceEnvelope : Type 0 where
  pub campaign_id : String
  pub revision_id : String
  pub excerpts : List SourceExcerpt
  pub session_id : Option String
  pub retrieval_policy_version : ℕ

unfoldable pub envelope_beq : SourceEnvelope → SourceEnvelope → Bool
envelope_beq x y =
    x.campaign_id == y.campaign_id
    && x.revision_id == y.revision_id
    && x.excerpts == y.excerpts
    && x.session_id == y.session_id
    && x.retrieval_policy_version == y.retrieval_policy_version

pub record GenerationRequest : Type 0 where
  pub generation_id : String
  pub campaign_id : String
  pub revision_id : String
  pub action : Action
  pub prompt : String
  pub envelope : SourceEnvelope
  pub focus_record_id : Option String
  pub focus_content_digest : Option String

unfoldable pub request_beq : GenerationRequest → GenerationRequest → Bool
unfolding action_beq envelope_beq
request_beq x y =
    x.generation_id == y.generation_id
    && x.campaign_id == y.campaign_id
    && x.revision_id == y.revision_id
    && action_beq x.action y.action
    && x.prompt == y.prompt
    && envelope_beq x.envelope y.envelope
    && x.focus_record_id == y.focus_record_id
    && x.focus_content_digest == y.focus_content_digest

is_focus_char : ℕ → Bool
is_focus_char c = is_lower c || is_digit c || nat_beq c b'-'

starts_plain : List ℕ → Bool
starts_plain [] = false
starts_plain (c ∷ s) = not (nat_beq c b'-')

-- `[a-z0-9][a-z0-9-]*` of at most 80 characters
is_focus : String → Bool
unfolding is_focus_char starts_plain
is_focus value =
    let s = codes value in
    leb 1 (length s) && leb (length s) 80 && starts_plain s && all is_focus_char s

is_valid_focus : Option String → Option String → Bool
unfolding is_focus is_digest
is_valid_focus none none = true
is_valid_focus (some id) (some digest) = is_focus id && is_digest digest
is_valid_focus _ _ = false

-- `GenerationRequest.__post_init__`
unfoldable pub check_request : GenerationRequest → Result GenerationError GenerationRequest
unfolding is_valid_focus
check_request q =
    if is_valid_focus q.focus_record_id q.focus_content_digest then ok q else err value_error

pub record StreamEvent : Type 0 where
  pub sequence : ℕ
  pub event_type : String
  pub draft_fragment : Option String
  pub retryable : Option Bool

pub record GenerationRecord : Type 0 where
  pub request : GenerationRequest
  pub events : List StreamEvent
  pub terminal_status : Option String
  pub terminal_content : String

-- `created_at` counts the seconds after the first day of the year 2000.
pub record Repository : Type 0 where
  pub sources : Dict String SourceEnvelope
  pub generations : Dict String GenerationRecord
  pub dispatch_log : List String
  pub created_at : Dict String ℕ

unfoldable pub get_generation : String → Repository → Option GenerationRecord
get_generation id r = lookup id r.generations

unfoldable pub save_generation : GenerationRecord → Repository → Repository
save_generation g r = record r { generations = insert g.request.generation_id g r.generations }

unfoldable pub reserve_over :
    Option GenerationRecord
    → GenerationRecord
    → Repository
    → Result GenerationError Bool × Repository
unfolding request_beq
reserve_over (some existing) g r =
    if request_beq existing.request g.request
    then (ok false, r)
    else (err idempotency_digest_conflict, r)
reserve_over none g r = (
  ok true,
  record r {
    sources = insert g.request.generation_id g.request.envelope r.sources;
    generations = insert g.request.generation_id g r.generations;
    created_at = insert g.request.generation_id (length r.created_at) r.created_at;
  },
)

unfoldable pub reserve_generation :
    GenerationRecord → Repository → Result GenerationError Bool × Repository
unfolding reserve_over
reserve_generation g r = reserve_over (lookup g.request.generation_id r.generations) g r

is_complete : Option String → Bool
is_complete status = status == some "complete"

draft_generation_count : String → String → Repository → ℕ
unfolding is_complete
draft_generation_count campaign revision r = length (
    filter
      (λ (g : GenerationRecord).
        g.request.campaign_id == campaign
        && g.request.revision_id == revision
        && is_complete g.terminal_status)
      (values r.generations))
