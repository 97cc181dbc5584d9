-- ===== src/Prepare.antt =====
-- hosted/ai/service.py: consent and `prepare` of `GroundedAIService`. The provider, the loader and the
-- verifier of the focus are given by what they answer; `sha256` (hashlib) and `dumps` (json.dumps) are
-- parameters.

mod Tests
use warden_drydock.Prelude.{
  ℕ, String, ◌≡◌, refl, ◌∙◌, sym, ap, Bool, true, false, not, ◌&&◌, ◌||◌, Option, none, some, List,
  [], ◌∷◌, ◌==◌, filter, nat_eq, string_eq, option_eq, inl, inr, Bool-cases, &&-true, arith,
  if◌then◌else◌, nat_beq_iff,
}
use text.Mathlib.TextEquality.{eq_iff}
use warden_drydock.Prelude.Dict.{lookup}
use warden_drydock.Prelude.Result.{Result, ok, err, ◌>>=◌, ◌>>◌, require, bind-eq-ok, require-eq-ok}
use warden_drydock.Live.Models.{
  Capture, confirmed_fact, CaptureType, LiveSession, Sessions, is_active,
}
use warden_drydock.Generations.Models.{
  GenerationError, unsafe_binding, provider_error, consent_required, key_error, Action,
  SourceEnvelope, GenerationRequest, GenerationRecord, check_request, Repository,
  reserve_generation, get_generation,
}
use warden_drydock.Sources.{Bounds, RankedRecord, select}

pub record ProviderConsent : Type 0 where
  pub credential_revision_fingerprint : String
  pub adapter_version : String
  pub endpoint_id : String
  pub region : String
  pub storage_mode : String
  pub retrieval_policy_version : ℕ
  pub notice_digest : String
  pub current : Bool

-- The fields of the service.
pub record Settings : Type 0 where
  pub enabled : Bool
  pub endpoint_id : String
  pub region : String
  pub storage_mode : String
  pub retrieval_policy_version : ℕ
  pub notice : String
  pub bounds : Bounds

pub record Provider : Type 0 where
  pub is_verified : Bool
  pub fingerprint : String
  pub adapter_version : String

pub record Loader : Type 0 where
  pub load : String → String → String → Result GenerationError (List RankedRecord)
  pub load_focus : String → String → String → Result GenerationError RankedRecord
  pub focus_verifier : Option (String → String → String → String → Bool)

-- The arguments of `prepare`.
pub record Question : Type 0 where
  pub generation_id : String
  pub campaign_id : String
  pub revision_id : String
  pub action : Action
  pub prompt : String
  pub session_id : Option String
  pub focus_record_id : Option String
  pub focus_content_digest : Option String

unfoldable pub consent_beq : ProviderConsent → ProviderConsent → Bool
consent_beq x y =
    x.credential_revision_fingerprint == y.credential_revision_fingerprint
    && x.adapter_version == y.adapter_version
    && x.endpoint_id == y.endpoint_id
    && x.region == y.region
    && x.storage_mode == y.storage_mode
    && x.retrieval_policy_version == y.retrieval_policy_version
    && x.notice_digest == y.notice_digest
    && (if x.current then y.current else not y.current)

is_fact : CaptureType → Bool
is_fact confirmed_fact = true
is_fact _ = false

-- The confirmed facts of a session that is active, of the campaign and on the revision.
session_facts : Question → Option LiveSession → Result GenerationError (List Capture)
unfolding is_fact is_active
session_facts q none = err key_error
session_facts q (some s) =
    if s.campaign_id == q.campaign_id && is_active s.mode && s.base_revision == q.revision_id
    then ok (filter (λ (c : Capture). is_fact c.capture_type) s.captures)
    else err unsafe_binding

facts_of : Question → Option String → Sessions → Result GenerationError (List Capture)
unfolding session_facts
facts_of q none sessions = ok []
facts_of q (some id) sessions = session_facts q (lookup id sessions.sessions)

verifies : Option (String → String → String → String → Bool) → Question → String → String → Bool
verifies none q id digest = false
verifies (some verify) q id digest = verify q.campaign_id q.revision_id id digest

-- Both parts of the focus are there, or neither; and the focus is verified.
focus_is_bound : Loader → Question → Option String → Option String → Bool
unfolding verifies
focus_is_bound l q none none = true
focus_is_bound l q (some id) (some digest) = verifies l.focus_verifier q id digest
focus_is_bound l q _ _ = false

-- The focused record comes first, and once.
with_focus :
    Loader
    → Question
    → Option String
    → List RankedRecord
    → Result GenerationError (List RankedRecord)
with_focus l q none records = ok records
with_focus l q (some id) records = do
  focused ← l.load_focus q.campaign_id q.revision_id id
  ok (focused ∷ filter (λ (x : RankedRecord). not (x.subject_id == id)) records)

request_of : Question → SourceEnvelope → GenerationRequest
request_of q envelope = record {
  generation_id = q.generation_id;
  campaign_id = q.campaign_id;
  revision_id = q.revision_id;
  action = q.action;
  prompt = q.prompt;
  envelope = envelope;
  focus_record_id = q.focus_record_id;
  focus_content_digest = q.focus_content_digest;
}

new_record : GenerationRequest → GenerationRecord
new_record request = record {
  request = request;
  events = [];
  terminal_status = none;
  terminal_content = "";
}

-- The end of `prepare`: a generation that is there already is returned as it is.
reserved :
    Result GenerationError Bool × Repository
    → GenerationRecord
    → Result GenerationError (Option GenerationRecord × Bool) × Repository
unfolding get_generation
reserved (err e, r) g = (err e, r)
reserved (ok true, r) g = (ok (some g, true), r)
reserved (ok false, r) g = (ok (get_generation g.request.generation_id r, false), r)

reserve_request :
    Result GenerationError GenerationRequest
    → Repository
    → Result GenerationError (Option GenerationRecord × Bool) × Repository
unfolding reserved new_record reserve_generation
reserve_request (err e) r = (err e, r)
reserve_request (ok request) r =
    reserved (reserve_generation (new_record request) r) (new_record request)

module _ (sha256 : String → String) (dumps : String → String) where
  -- `_current_consent_identity`; `dumps` is of the object with the notice alone.
  unfoldable pub current_identity : Settings → Provider → ProviderConsent
  current_identity s p = record {
    credential_revision_fingerprint = p.fingerprint;
    adapter_version = p.adapter_version;
    endpoint_id = s.endpoint_id;
    region = s.region;
    storage_mode = s.storage_mode;
    retrieval_policy_version = s.retrieval_policy_version;
    notice_digest = sha256 (dumps s.notice);
    current = true;
  }

  -- `record_consent`, with the settings and the consent that it leaves.
  unfoldable pub record_consent :
      Bool
      → String
      → String
      → String
      → Settings
      → Provider
      → Option ProviderConsent
      → Result GenerationError ProviderConsent × (Settings × Option ProviderConsent)
  unfolding current_identity
  record_consent explicit notice endpoint region s p consent =
      let t : Settings = record s { notice = notice; endpoint_id = endpoint; region = region } in
      if explicit && p.is_verified
      then (ok (current_identity t p), (t, some (current_identity t p)))
      else (err consent_required, (s, consent))

  unfoldable pub has_consent : Settings → Provider → Option ProviderConsent → Bool
  unfolding consent_beq current_identity
  has_consent s p none = false
  has_consent s p (some c) = c.current && p.is_verified && consent_beq c (current_identity s p)

  -- The request that `prepare` makes before it reserves a generation.
  unfoldable pub make_request :
      Settings
      → Provider
      → Loader
      → Option ProviderConsent
      → Sessions
      → Question
      → Result GenerationError GenerationRequest
  unfolding has_consent facts_of focus_is_bound with_focus request_of
  make_request s p l consent sessions q = do
    require s.enabled provider_error
    require (has_consent s p consent) consent_required
    facts ← facts_of q q.session_id sessions
    require (focus_is_bound l q q.focus_record_id q.focus_content_digest) unsafe_binding
    loaded ← l.load q.campaign_id q.revision_id q.prompt
    records ← with_focus l q q.focus_record_id loaded
    envelope ← select s.bounds q.campaign_id q.revision_id records q.session_id facts
    check_request (request_of q envelope)

  unfoldable pub prepare :
      Settings
      → Provider
      → Loader
      → Option ProviderConsent
      → Sessions
      → Question
      → Repository
      → Result GenerationError (Option GenerationRecord × Bool) × Repository
  unfolding make_request reserve_request
  prepare s p l consent sessions q r = reserve_request (make_request s p l consent sessions q) r

consent_beq-same : (x y : ProviderConsent) → consent_beq x y ≡ true → x ≡ y
unfolding consent_beq
consent_beq-same x y h = ground (
  arith,
  eq_iff x.credential_revision_fingerprint y.credential_revision_fingerprint,
  eq_iff x.adapter_version y.adapter_version,
  eq_iff x.endpoint_id y.endpoint_id,
  eq_iff x.region y.region,
  eq_iff x.storage_mode y.storage_mode,
  eq_iff x.notice_digest y.notice_digest,
)

not_reserved :
    {e : GenerationError} {o : Option GenerationRecord}
    → ◌≡◌ {A = Result GenerationError (Option GenerationRecord × Bool)} (err e) (ok (o, true))
    → ⊥
not_reserved h = cc

module _ (sha256 : String → String) (dumps : String → String) where
  consent_current :
      (s : Settings) (p : Provider) (consent : Option ProviderConsent)
      → has_consent sha256 dumps s p consent ≡ true
      → (consent ≡ some (current_identity sha256 dumps s p)) × (p.is_verified ≡ true)
  unfolding has_consent
  consent_current s p none h = absurd (cc)
  consent_current s p (some c) h =
      let (both, same) =
        &&-true (c.current && p.is_verified) (consent_beq c (current_identity sha256 dumps s p))
          h in
      (
        ap some (consent_beq-same c (current_identity sha256 dumps s p) same),
        (&&-true c.current p.is_verified both).1,
      )

  request_consented :
      (s : Settings) (p : Provider) (l : Loader) (consent : Option ProviderConsent)
      (sessions : Sessions) (q : Question) (request : GenerationRequest)
      → make_request sha256 dumps s p l consent sessions q ≡ ok request
      → (s.enabled ≡ true) × (has_consent sha256 dumps s p consent ≡ true)
  unfolding make_request
  request_consented s p l consent sessions q request e =
      let (_, on, e1) = bind-eq-ok (require s.enabled provider_error) _ request e in
      let (_, has, e2) =
        bind-eq-ok (require (has_consent sha256 dumps s p consent) consent_required) _ request e1 in
      (
        require-eq-ok s.enabled provider_error on,
        require-eq-ok (has_consent sha256 dumps s p consent) consent_required has,
      )

  prepared_consented :
      (s : Settings) (p : Provider) (l : Loader) (consent : Option ProviderConsent)
      (sessions : Sessions) (q : Question) (r : Repository) (o : Option GenerationRecord)
      (x : Result GenerationError GenerationRequest)
      → make_request sha256 dumps s p l consent sessions q ≡ x
      → (reserve_request x r).0 ≡ ok (o, true)
      → (s.enabled ≡ true) × (has_consent sha256 dumps s p consent ≡ true)
  unfolding reserve_request
  prepared_consented s p l consent sessions q r o (err e) made h = absurd (not_reserved h)
  prepared_consented s p l consent sessions q r o (ok request) made h =
      request_consented s p l consent sessions q request made

  -- A generation is reserved only if the service is enabled, the provider's credential is verified,
  -- and the recorded consent is, field by field, the one that the present credential, adapter,
  -- endpoint, region, storage mode, policy and notice call for.
  pub prepare-consented :
      (s : Settings) (p : Provider) (l : Loader) (consent : Option ProviderConsent)
      (sessions : Sessions) (q : Question) (r : Repository) (o : Option GenerationRecord)
      → (prepare sha256 dumps s p l consent sessions q r).0 ≡ ok (o, true)
      → (s.enabled ≡ true)
        × (consent ≡ some (current_identity sha256 dumps s p))
        × (p.is_verified ≡ true)
  unfolding prepare
  prepare-consented s p l consent sessions q r o h =
      let (on, has) = prepared_consented s p l consent sessions q r o _ refl h in
      let (same, verified) = consent_current s p consent has in (on, same, verified)
