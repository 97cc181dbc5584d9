-- ===== src/Prepare/Tests.antt =====
-- A generation that is reserved with consent, and the theorem at it.
use warden_drydock.Prelude.{String, ◌≡◌, refl, true, none, some, [], ◌∷◌, string_eq}
use warden_drydock.Prelude.Dict.{lookup}
use warden_drydock.Prelude.Result.{ok}
use warden_drydock.Live.Models.{no_sessions}
use warden_drydock.Generations.Models.{
  ask, GenerationRecord, Repository, check_request, reserve_generation,
}
use warden_drydock.Sources.{select}
use warden_drydock.Prelude.Sort.{sort}
use warden_drydock.Prepare.{
  ProviderConsent, Settings, Provider, Loader, Question, current_identity, prepare,
  prepare-consented,
}

abbrev sha256 : String → String
sha256 text = "digest"

abbrev dumps : String → String
dumps notice = notice

abbrev settings : Settings
settings = record {
  enabled = true;
  endpoint_id = "responses_api";
  region = "provider_default";
  storage_mode = "no_training";
  retrieval_policy_version = 1;
  notice = "notice";
  bounds = record { max_sources = 2; max_excerpt_characters = 4; max_total_characters = 6 };
}

abbrev provider : Provider
provider = record { is_verified = true; fingerprint = "fingerprint"; adapter_version = "1" }

abbrev loader : Loader
loader = record {
  load = λ campaign revision prompt.
      ok (record { relevance = 1; status = "canon"; subject_id = "b"; content = "second" } ∷ []);
  load_focus = λ campaign revision id.
      ok (record { relevance = 1; status = "canon"; subject_id = "b"; content = "x" });
  focus_verifier = none;
}

abbrev question : Question
question = record {
  generation_id = "generation_one";
  campaign_id = "campaign_one";
  revision_id = "revision_one";
  action = ask;
  prompt = "who";
  session_id = none;
  focus_record_id = none;
  focus_content_digest = none;
}

abbrev nothing_yet : Repository
nothing_yet = record { sources = []; generations = []; dispatch_log = []; created_at = [] }

abbrev generation : GenerationRecord
generation = record {
  request = record {
    generation_id = "generation_one";
    campaign_id = "campaign_one";
    revision_id = "revision_one";
    action = ask;
    prompt = "who";
    envelope = record {
      campaign_id = "campaign_one";
      revision_id = "revision_one";
      excerpts = record { source_id = "b"; authority = "canon"; text = "seco"; order = 1 } ∷ [];
      session_id = none;
      retrieval_policy_version = 1;
    };
    focus_record_id = none;
    focus_content_digest = none;
  };
  events = [];
  terminal_status = none;
  terminal_content = "";
}

abbrev consent : ProviderConsent
consent = record {
  credential_revision_fingerprint = "fingerprint";
  adapter_version = "1";
  endpoint_id = "responses_api";
  region = "provider_default";
  storage_mode = "no_training";
  retrieval_policy_version = 1;
  notice_digest = "digest";
  current = true;
}

prepare-consented_example :
    (settings.enabled ≡ true)
    × (some consent ≡ some (current_identity sha256 dumps settings provider))
    × (provider.is_verified ≡ true)
unfolding prepare select sort check_request reserve_generation lookup
prepare-consented_example =
    prepare-consented sha256 dumps settings provider loader (some consent) no_sessions question
      nothing_yet (some generation) refl
