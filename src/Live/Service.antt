-- ===== src/Live/Service.antt =====
-- hosted/ai/live.py: `LiveSessionService` over the in-memory repository. The lock makes a call one
-- step. Every check of a call comes before its first change of the session.
use warden_drydock.Prelude.{
  ℕ, ◌+◌, String, Bool, true, false, not, Option, none, some, List, [], ◌∷◌, ◌++◌, ◌&&◌, ◌||◌, ◌==◌,
  leb, ltb, any, all, contains, nat_eq, string_eq, option_eq, pair_eq, filter, if◌then◌else◌,
}
use warden_drydock.Prelude.Dict.{lookup, insert, keys}
use warden_drydock.Prelude.Sort.{sort}
use warden_drydock.Prelude.Text.{str_leb}
use warden_drydock.Prelude.Result.{Result, ok, err, ◌>>◌, require}
use warden_drydock.Live.Models.{
  LiveError, stale_controller, stale_workflow, unsafe_binding, idempotency_digest_conflict,
  live_unaccepted_barrier, active_session_conflict, disabled, key_error, CaptureType,
  confirmed_fact, OperationKey, Capture, LiveEndBarrier, active, ended_review_pending, is_active,
  LiveSession, captures, end_intent, Binding, live_operation_digest, Sessions, active_session,
  create_session, change, save_session,
}

pub data Answer : Type 0 where
  accepted exact_replay : Answer

-- The arguments of `capture` beside the session.
pub record Operation : Type 0 where
  pub controller_id : String
  pub controller_epoch : ℕ
  pub expected_workflow_version : ℕ
  pub event_id : String
  pub device_id : String
  pub operation_id : String
  pub device_order : ℕ
  pub capture_type : CaptureType
  pub text : String
  pub record_id : Option String

-- The arguments of `end` beside the session.
pub record Ending : Type 0 where
  pub controller_id : String
  pub controller_epoch : ℕ
  pub expected_workflow_version : ℕ
  pub device_id : String
  pub operation_id : String
  pub required_operation_ids : List OperationKey

-- `_require_epoch` and `_require_controller`
pub require_epoch : LiveSession → ℕ → Result LiveError (Unit {0})
require_epoch s epoch = require (s.controller_epoch == epoch) stale_controller

pub require_controller : LiveSession → String → ℕ → Result LiveError (Unit {0})
unfolding require_epoch
require_controller s controller epoch = do
  require_epoch s epoch
  require (s.controller_id == controller) stale_controller

unfoldable pub greater : ℕ → Option ℕ → ℕ
greater order none = order
greater order (some n) = if leb order n then n else order

-- The greatest order of the device, or nothing.
unfoldable pub max_order : String → List Capture → Option ℕ
unfolding greater
max_order device [] = none
max_order device (c ∷ cs) =
    let rest = max_order device cs in
    if c.device_id == device then some (greater c.device_order rest) else rest

unfoldable pub at_most : ℕ → Option ℕ → Bool
at_most order none = false
at_most order (some n) = leb order n

-- `device_orders and device_order <= max(device_orders)`
unfoldable pub is_reused : String → ℕ → List Capture → Bool
unfolding at_most max_order
is_reused device order cs = at_most order (max_order device cs)

-- `set(...)`, and its sorted members.
dedupe : List OperationKey → List OperationKey
dedupe [] = []
dedupe (k ∷ ks) = let rest = dedupe ks in if contains k ks then rest else k ∷ rest

key_leb : OperationKey → OperationKey → Bool
key_leb j k = if j.0 == k.0 then str_leb j.1 k.1 else str_leb j.0 k.0

sorted_set : List OperationKey → List OperationKey
unfolding dedupe key_leb
sorted_set ks = sort key_leb (dedupe ks)

unfoldable pub new_session : String → String → String → String → LiveSession
new_session id campaign head controller = record {
  session_id = id;
  campaign_id = campaign;
  base_revision = head;
  reported_head_revision = head;
  workflow_version = 1;
  controller_epoch = 1;
  controller_id = controller;
  mode = active;
  captures = [];
  receipts = [];
  end_barrier = none;
  session_seq = 0;
  created_at = none;
  ended_at = none;
}

-- A start of a session that is there already.
pub replayed : LiveSession → String → String → String → Result LiveError LiveSession
replayed existing campaign head controller =
    if existing.campaign_id == campaign
      && existing.base_revision == head
      && existing.controller_id == controller
    then ok existing
    else err idempotency_digest_conflict

unfoldable pub created :
    Option LiveSession → ℕ → LiveSession → Sessions → Result LiveError LiveSession × Sessions
unfolding create_session
created (some _) now session r = (err active_session_conflict, r)
created none now session r = let (s, q) = create_session now session r in (ok s, q)

unfoldable pub start_at :
    Option LiveSession
    → ℕ
    → String
    → String
    → String
    → String
    → Sessions
    → Result LiveError LiveSession × Sessions
unfolding replayed created new_session active_session
start_at (some existing) now id campaign head controller r =
    (replayed existing campaign head controller, r)
start_at none now id campaign head controller r =
    created (active_session campaign r) now (new_session id campaign head controller) r

unfoldable pub start :
    Bool
    → ℕ
    → String
    → String
    → String
    → String
    → Sessions
    → Result LiveError LiveSession × Sessions
unfolding start_at
start enabled now id campaign head controller r =
    if not enabled
    then (err disabled, r)
    else start_at (lookup id r.sessions) now id campaign head controller r

unfoldable pub observed :
    Option LiveSession → String → Option String → Sessions → Result LiveError LiveSession × Sessions
unfolding change
observed none id head r = (err key_error, r)
observed (some s) id none r = (ok s, r)
observed (some s) id (some head) r =
    let seen : LiveSession = record s { reported_head_revision = head } in
    if head == "" then (ok s, r) else (ok seen, change id seen r)

unfoldable pub observe : String → Option String → Sessions → Result LiveError LiveSession × Sessions
unfolding observed
observe id head r = observed (lookup id r.sessions) id head r

-- A call that changes the session: nothing for a replay, or the session as it becomes.
unfoldable pub taken_over : String → ℕ → ℕ → LiveSession → Result LiveError (Option LiveSession)
unfolding require_epoch is_active
taken_over controller epoch version s = do
  require_epoch s epoch
  require (is_active s.mode) stale_workflow
  require (s.workflow_version == version) stale_workflow
  ok (
      some (record s {
        controller_epoch = s.controller_epoch + 1;
        controller_id = controller;
        workflow_version = s.workflow_version + 1;
      }))

module _ (sha256 : String → String) (dumps : Binding → String) where
  unfoldable pub capture_digest : LiveSession → String → Operation → String
  unfolding live_operation_digest
  capture_digest s id o = live_operation_digest sha256 dumps (record {
    campaign_id = s.campaign_id;
    base_revision = s.base_revision;
    session_id = id;
    controller_id = o.controller_id;
    controller_epoch = o.controller_epoch;
    workflow_version = o.expected_workflow_version;
    event_type = captures o.capture_type;
    event_id = some o.event_id;
    device_id = o.device_id;
    operation_id = o.operation_id;
    device_order = some o.device_order;
    text = o.text;
    record_id = o.record_id;
    required_operation_ids = none;
  })

  unfoldable pub end_digest : LiveSession → String → Ending → String
  unfolding live_operation_digest sorted_set
  end_digest s id e = live_operation_digest sha256 dumps (record {
    campaign_id = s.campaign_id;
    base_revision = s.base_revision;
    session_id = id;
    controller_id = e.controller_id;
    controller_epoch = e.controller_epoch;
    workflow_version = e.expected_workflow_version;
    event_type = end_intent;
    event_id = none;
    device_id = e.device_id;
    operation_id = e.operation_id;
    device_order = none;
    text = "";
    record_id = none;
    required_operation_ids = some (sorted_set e.required_operation_ids);
  })

  unfoldable pub capture_of : String → Operation → LiveSession → Capture
  unfolding capture_digest
  capture_of id o s = record {
    event_id = o.event_id;
    device_id = o.device_id;
    operation_id = o.operation_id;
    device_order = o.device_order;
    capture_type = o.capture_type;
    text = o.text;
    payload_digest = capture_digest s id o;
    record_id = o.record_id;
  }

  unfoldable pub with_capture : Capture → LiveSession → LiveSession
  with_capture x s = record s {
    captures = s.captures ++ x ∷ [];
    receipts = insert (x.device_id, x.operation_id) x.payload_digest s.receipts;
    workflow_version = s.workflow_version + 1;
  }

  -- The branch of `capture` without a receipt of the operation.
  unfoldable pub new_capture :
      String → Operation → LiveSession → Result LiveError (Option LiveSession)
  unfolding require_controller is_active is_reused with_capture capture_of
  new_capture id o s = do
    require_controller s o.controller_id o.controller_epoch
    require (is_active s.mode) stale_workflow
    require (s.workflow_version == o.expected_workflow_version) stale_workflow
    require (not (is_reused o.device_id o.device_order s.captures)) unsafe_binding
    require (not (any (λ (c : Capture). c.event_id == o.event_id) s.captures))
        idempotency_digest_conflict
    ok (some (with_capture (capture_of id o s) s))

  unfoldable pub capture_over :
      Option String → String → Operation → LiveSession → Result LiveError (Option LiveSession)
  unfolding new_capture capture_digest
  capture_over (some prior) id o s =
      if prior == capture_digest s id o then ok none else err idempotency_digest_conflict
  capture_over none id o s = new_capture id o s

  unfoldable pub capture_session :
      String → Operation → LiveSession → Result LiveError (Option LiveSession)
  unfolding capture_over
  capture_session id o s =
      if ltb o.device_order 1 || o.text == ""
      then err unsafe_binding
      else capture_over (lookup (o.device_id, o.operation_id) s.receipts) id o s

  unfoldable pub barrier_of : Ending → LiveSession → LiveEndBarrier
  unfolding sorted_set
  barrier_of e s = record {
    end_operation_id = e.operation_id;
    end_device_id = e.device_id;
    required_operation_ids = sorted_set e.required_operation_ids;
    ready_for_proposal =
        all (λ (k : OperationKey). contains k (keys s.receipts)) e.required_operation_ids;
  }

  unfoldable pub ended : ℕ → String → Ending → LiveSession → LiveSession
  unfolding barrier_of end_digest
  ended now id e s = record s {
    mode = ended_review_pending;
    ended_at = some now;
    receipts = insert (e.device_id, e.operation_id) (end_digest s id e) s.receipts;
    workflow_version = s.workflow_version + 1;
    end_barrier = some (barrier_of e s);
  }

  -- Some receipt is not among the required operations.
  unfoldable pub has_hidden : Ending → LiveSession → Bool
  has_hidden e s =
      any (λ (k : OperationKey). not (contains k e.required_operation_ids)) (keys s.receipts)

  unfoldable pub new_end : ℕ → String → Ending → LiveSession → Result LiveError (Option LiveSession)
  unfolding require_controller is_active has_hidden ended
  new_end now id e s = do
    require_controller s e.controller_id e.controller_epoch
    require (is_active s.mode) stale_workflow
    require (s.workflow_version == e.expected_workflow_version) stale_workflow
    require (not (has_hidden e s)) live_unaccepted_barrier
    ok (some (ended now id e s))

  unfoldable pub end_over :
      Option String → ℕ → String → Ending → LiveSession → Result LiveError (Option LiveSession)
  unfolding new_end end_digest
  end_over (some prior) now id e s =
      if prior == end_digest s id e then ok none else err idempotency_digest_conflict
  end_over none now id e s = new_end now id e s

  unfoldable pub end_session :
      ℕ → String → Ending → LiveSession → Result LiveError (Option LiveSession)
  unfolding end_over
  end_session now id e s =
      if contains (e.device_id, e.operation_id) e.required_operation_ids
      then err unsafe_binding
      else end_over (lookup (e.device_id, e.operation_id) s.receipts) now id e s

  -- The change of the stored session and its `save_session`, which finds the same object and so
  -- raises nothing: the handlers for a save that raises are for the other repository.
  unfoldable pub written :
      String
      → Result LiveError (Option LiveSession)
      → ℕ
      → ℕ
      → LiveSession
      → Sessions
      → Result LiveError (Answer × LiveSession) × Sessions
  unfolding change save_session
  written id (err x) version epoch s r = (err x, r)
  written id (ok none) version epoch s r = (ok (exact_replay, s), r)
  written id (ok (some t)) version epoch s r =
      (ok (accepted, t), (save_session true t version epoch (change id t r)).1)

  -- `get_session`, and a call on the session.
  unfoldable pub on_session :
      Option LiveSession
      → (LiveSession → Result LiveError (Option LiveSession))
      → String
      → ℕ
      → ℕ
      → Sessions
      → Result LiveError (Answer × LiveSession) × Sessions
  unfolding written
  on_session none f id version epoch r = (err key_error, r)
  on_session (some s) f id version epoch r = written id (f s) version epoch s r

  -- `capture` returns the answer alone, and `end` and `takeover` the session alone.
  unfoldable pub capture :
      String → Operation → Sessions → Result LiveError (Answer × LiveSession) × Sessions
  unfolding on_session capture_session
  capture id o r =
      on_session (lookup id r.sessions) (capture_session id o) id o.expected_workflow_version
        o.controller_epoch r

  unfoldable pub end :
      ℕ → String → Ending → Sessions → Result LiveError (Answer × LiveSession) × Sessions
  unfolding on_session end_session
  end now id e r =
      on_session (lookup id r.sessions) (end_session now id e) id e.expected_workflow_version
        e.controller_epoch r

  unfoldable pub takeover :
      String → String → ℕ → ℕ → Sessions → Result LiveError (Answer × LiveSession) × Sessions
  unfolding on_session taken_over
  takeover id controller epoch version r =
      on_session (lookup id r.sessions) (taken_over controller epoch version) id version epoch r

is_fact : CaptureType → Bool
is_fact confirmed_fact = true
is_fact _ = false

grounding_facts : String → Sessions → Result LiveError (List Capture)
unfolding is_fact
grounding_facts id r = elim (lookup id r.sessions) [
  | none ↦ err key_error
  | some s ↦ ok (filter (λ (c : Capture). is_fact c.capture_type) s.captures)
]
