-- ===== src/Live/Models.antt =====
-- hosted/ai/models.py: captures, live sessions and the digest that binds an operation; and the
-- sessions of `InMemoryAIRepository` in hosted/ai/repository.py. `sha256` (hashlib) and `dumps`
-- (json.dumps) are parameters. Times are seconds.
use warden_drydock.Prelude.{
  ℕ, ◌+◌, String, Bool, true, false, not, Option, none, some, List, [], ◌∷◌, ◌&&◌, ◌==◌, leb,
  nat_eq, string_eq, pair_eq, filter, if◌then◌else◌,
}
use warden_drydock.Prelude.Dict.{Dict, lookup, insert, values}
use warden_drydock.Prelude.Sort.{sort}
use warden_drydock.Prelude.Result.{Result, ok, err}

-- The exceptions, by class and message.
pub data LiveError : Type 0 where
  stale_controller stale_workflow unsafe_binding idempotency_digest_conflict : LiveError
  live_unaccepted_barrier active_session_conflict disabled key_error : LiveError
  save_stale_workflow save_stale_epoch : LiveError

pub data CaptureType : Type 0 where
  confirmed_fact unresolved_question : CaptureType

abbrev pub OperationKey : Type 0
OperationKey = String × String

pub record Capture : Type 0 where
  pub event_id : String
  pub device_id : String
  pub operation_id : String
  pub device_order : ℕ
  pub capture_type : CaptureType
  pub text : String
  pub payload_digest : String
  pub record_id : Option String

pub record LiveEndBarrier : Type 0 where
  pub end_operation_id : String
  pub end_device_id : String
  pub required_operation_ids : List OperationKey
  pub ready_for_proposal : Bool

pub data Mode : Type 0 where
  active ended_review_pending : Mode

unfoldable pub is_active : Mode → Bool
is_active active = true
is_active ended_review_pending = false

pub record LiveSession : Type 0 where
  pub session_id : String
  pub campaign_id : String
  pub base_revision : String
  pub reported_head_revision : String
  pub workflow_version : ℕ
  pub controller_epoch : ℕ
  pub controller_id : String
  pub mode : Mode
  pub captures : List Capture
  pub receipts : Dict OperationKey String
  pub end_barrier : Option LiveEndBarrier
  pub session_seq : ℕ
  pub created_at : Option ℕ
  pub ended_at : Option ℕ

-- The type of the event in a digest.
pub data EventType : Type 0 where
  captures : CaptureType → EventType
  end_intent : EventType

-- The keys of the digest; nothing is `null`, or no key for the last two.
pub record Binding : Type 0 where
  pub campaign_id : String
  pub base_revision : String
  pub session_id : String
  pub controller_id : String
  pub controller_epoch : ℕ
  pub workflow_version : ℕ
  pub event_type : EventType
  pub event_id : Option String
  pub device_id : String
  pub operation_id : String
  pub device_order : Option ℕ
  pub text : String
  pub record_id : Option String
  pub required_operation_ids : Option (List OperationKey)

unfoldable pub live_operation_digest : (String → String) → (Binding → String) → Binding → String
live_operation_digest sha256 dumps b = sha256 (dumps b)

-- The sessions of the repository, and the next number of a session.
pub record Sessions : Type 0 where
  pub sessions : Dict String LiveSession
  pub next_seq : ℕ

abbrev pub no_sessions : Sessions
no_sessions = record { sessions = []; next_seq = 1 }

first_of : List LiveSession → Option LiveSession
first_of [] = none
first_of (s ∷ _) = some s

unfoldable pub active_session : String → Sessions → Option LiveSession
unfolding first_of is_active
active_session campaign r = first_of (
    filter (λ (s : LiveSession). s.campaign_id == campaign && is_active s.mode) (values r.sessions))

-- `max` by the number of the session: the first of the greatest.
select_current_from_seq : List LiveSession → Option LiveSession
select_current_from_seq [] = none
select_current_from_seq (s ∷ ss) =
    let rest = select_current_from_seq ss in
    elim rest [
      | none ↦ some s
      | some t ↦ if leb t.session_seq s.session_seq then some s else some t
    ]

campaign_session : String → Sessions → Option LiveSession
unfolding active_session select_current_from_seq is_active
campaign_session campaign r = elim (active_session campaign r) [
  | some s ↦ some s
  | none ↦ select_current_from_seq (
      filter (λ (s : LiveSession). s.campaign_id == campaign && not (is_active s.mode))
        (values r.sessions))
]

-- `sorted(..., reverse=True)` keeps the order of equal numbers.
newest_first : LiveSession → LiveSession → Bool
newest_first s t = leb t.session_seq s.session_seq

campaign_sessions : String → Sessions → List LiveSession
unfolding newest_first
campaign_sessions campaign r =
    sort newest_first (filter (λ (s : LiveSession). s.campaign_id == campaign) (values r.sessions))

unfoldable pub create_session : ℕ → LiveSession → Sessions → LiveSession × Sessions
create_session now session r =
    let numbered : LiveSession = record session {
      session_seq = r.next_seq;
      created_at = some now;
    } in
    (
      numbered,
      record {
        sessions = insert numbered.session_id numbered r.sessions;
        next_seq = r.next_seq + 1;
      },
    )

-- A session that `get_session` returns is the stored object, and a change of it a change of the
-- repository.
unfoldable pub change : String → LiveSession → Sessions → Sessions
change id session r = record r { sessions = insert id session r.sessions }

-- The tests of `save_session` against what is stored, where that is another object.
stale_save : Option LiveSession → ℕ → ℕ → Option LiveError
stale_save none version epoch = none
stale_save (some current) version epoch =
    if not (current.workflow_version == version)
    then some save_stale_workflow
    else if not (current.controller_epoch == epoch)
    then some save_stale_epoch
    else none

unfoldable pub save_session :
    Bool → LiveSession → ℕ → ℕ → Sessions → Result LiveError (Unit {0}) × Sessions
unfolding stale_save change
save_session true session version epoch r = (ok tt, change session.session_id session r)
save_session false session version epoch r =
    elim (stale_save (lookup session.session_id r.sessions) version epoch) [
      | some e ↦ (err e, r)
      | none ↦ (ok tt, change session.session_id session r)
    ]
