-- ===== src/Generations/Tests.antt =====
-- A stream that continues after its terminal event, and the theorem at it.
use warden_drydock.Prelude.{refl, none, some, [], ◌∷◌}
use warden_drydock.Generations.Models.{ask, GenerationRecord}
use warden_drydock.Generations.Dispatch.{exhausted, Stream, stream_into}
use warden_drydock.Generations.Terminal.{Ended, stream_into-Ended}

abbrev generation : GenerationRecord
generation = record {
  request = record {
    generation_id = "generation_one";
    campaign_id = "campaign_one";
    revision_id = "revision_one";
    action = ask;
    prompt = "who";
    envelope = record {
      campaign_id = "campaign_one";
      revision_id = "revision_one";
      excerpts = [];
      session_id = none;
      retrieval_policy_version = 1;
    };
    focus_record_id = none;
    focus_content_digest = none;
  };
  events = [];
  terminal_status = none;
  terminal_content = "";
}

abbrev stream : Stream
stream = record {
  yielded = ("delta", some "text") ∷ ("completion", none) ∷ ("delta", some "late") ∷ [];
  ends = exhausted;
}

stream_into-Ended_example : Ended (stream_into stream generation)
stream_into-Ended_example = stream_into-Ended stream generation refl
