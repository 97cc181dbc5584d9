-- ===== src/Live/Tests.antt =====
-- A session with one capture, and the theorems at it. Every digest is the same text.
use warden_drydock.Prelude.{
  String, ◌≡◌, ◌↔◌, refl, true, false, none, some, [], ◌∷◌, contains, filter, string_eq, pair_eq,
}
use warden_drydock.Prelude.Dict.{lookup, insert, keys, values}
use warden_drydock.Prelude.Result.{ok}
use warden_drydock.Live.Models.{confirmed_fact, LiveSession, Binding, Sessions, no_sessions}
use warden_drydock.Live.Service.{
  Operation, Ending, exact_replay, start, capture, end_session, barrier_of, ended, new_session,
}
use warden_drydock.Live.Consistent.{IsConsistent}
use warden_drydock.Live.Reach.{Reach, here, next, starts, capturing, Reach-IsConsistent}
use warden_drydock.Live.Replay.{capture_again}
use warden_drydock.Live.Barrier.{Within, end_session-sealed}

abbrev sha256 : String → String
sha256 text = "digest"

abbrev dumps : Binding → String
dumps b = ""

abbrev operation : Operation
operation = record {
  controller_id = "controller_one";
  controller_epoch = 1;
  expected_workflow_version = 1;
  event_id = "event_one";
  device_id = "device_one";
  operation_id = "operation_one";
  device_order = 1;
  capture_type = confirmed_fact;
  text = "text";
  record_id = none;
}

abbrev started : Sessions
started = (start true 0 "session_one" "campaign_one" "revision_one" "controller_one" no_sessions).1

abbrev started-Reach : Reach sha256 dumps started
started-Reach =
    next here (starts true 0 "session_one" "campaign_one" "revision_one" "controller_one")

abbrev after : Sessions
after = (capture sha256 dumps "session_one" operation started).1

-- The session as it starts, and with its capture.
abbrev opened : LiveSession
opened = record (new_session "session_one" "campaign_one" "revision_one" "controller_one") {
  session_seq = 1;
  created_at = some 0;
}

abbrev captured : LiveSession
captured = record opened {
  workflow_version = 2;
  captures =
      record {
        event_id = "event_one";
        device_id = "device_one";
        operation_id = "operation_one";
        device_order = 1;
        capture_type = confirmed_fact;
        text = "text";
        payload_digest = "digest";
        record_id = none;
      }
      ∷ [];
  receipts = (("device_one", "operation_one"), "digest") ∷ [];
}

Reach-IsConsistent_example : IsConsistent captured
unfolding lookup capture start filter values insert
Reach-IsConsistent_example =
    Reach-IsConsistent sha256 dumps after "session_one" captured
      (next started-Reach (capturing "session_one" operation)) refl

capture_again_example :
    capture sha256 dumps "session_one" operation after ≡ (ok (exact_replay, captured), after)
unfolding capture lookup start filter values insert
capture_again_example =
    capture_again sha256 dumps "session_one" operation captured started started-Reach refl

abbrev ending : Ending
ending = record {
  controller_id = "controller_one";
  controller_epoch = 1;
  expected_workflow_version = 2;
  device_id = "device_one";
  operation_id = "operation_two";
  required_operation_ids = ("device_one", "operation_one") ∷ [];
}

abbrev closed : LiveSession
closed = ended sha256 dumps 9 "session_one" ending captured

end_session-sealed_example :
    (closed.captures ≡ captured.captures)
    × (closed.end_barrier ≡ some (barrier_of sha256 dumps ending captured))
    × Within (keys captured.receipts) ending.required_operation_ids
    × (contains (ending.device_id, ending.operation_id) ending.required_operation_ids ≡ false)
    × (((barrier_of sha256 dumps ending captured).ready_for_proposal ≡ true)
        ↔ Within ending.required_operation_ids (keys captured.receipts))
unfolding end_session lookup new_session keys
end_session-sealed_example =
    end_session-sealed sha256 dumps 9 "session_one" ending captured closed refl
