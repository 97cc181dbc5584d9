-- ===== src/Proposals/Service/Approval.antt =====
-- The writes of `approve`.
use warden_drydock.Prelude.{
  String, ◌≡◌, refl, true, ◌&&◌, Option, none, some, List, inl, inr, Bool-cases, nat_eq, string_eq,
  option_eq, pair_eq, ◌==◌,
}
use warden_drydock.Prelude.Dict.{lookup, lookup-insert_self}
use warden_drydock.Prelude.Result.{Result, ok, err}
use warden_drydock.Proposals.Models.{
  ProposalError, stale_head, draft, approving, published, status_beq, ProposalVersion,
}
use warden_drydock.Proposals.Digests.{ChangeDigest}
use warden_drydock.Proposals.Repository.{Key, Repository, get_of, put, claim, claim_of}
use warden_drydock.Proposals.Machine.{allowed, Edits, kept, moves, Edits-trans, IsKeyed}
use warden_drydock.Proposals.Service.{
  Publication, nothing, other_value, snapshot, staged, StageStatus, Callbacks, is_bound, ending,
  claimed, approve_current, after_head, after_stage, after_publish,
}
use warden_drydock.Proposals.Service.Writes.{status_of, status_beq_iff, conclude-Edits}

module _ (sha256 : String → String) (dumps : List ChangeDigest → String) (c : Callbacks) where
  publish_allowed :
      (v : ProposalVersion) (x : Result ProposalError Publication)
      → allowed approving (status_of (after_publish sha256 dumps c v x)) ≡ true
  unfolding after_publish
  publish_allowed v (err stale_head) = refl
  publish_allowed v (err _) = refl
  publish_allowed v (ok nothing) = refl
  publish_allowed v (ok other_value) = refl
  publish_allowed v (ok (snapshot m)) = elim (Bool-cases (is_bound sha256 dumps c v m)) [
    | inl e ↦ rw e refl
    | inr e ↦ rw e refl
  ]

  stage_allowed :
      (v : ProposalVersion) (x : Result ProposalError StageStatus)
      → allowed approving (status_of (after_stage sha256 dumps c v x)) ≡ true
  unfolding after_stage
  stage_allowed v (ok staged) = publish_allowed v (c.publish v)
  stage_allowed v (ok _) = refl
  stage_allowed v (err _) = refl

  head_allowed :
      (v : ProposalVersion) (x : Result ProposalError (Option String))
      → allowed approving (status_of (after_head sha256 dumps c v x)) ≡ true
  unfolding after_head
  head_allowed v (err _) = refl
  head_allowed v (ok head) = elim (Bool-cases (head == some v.base_revision)) [
    | inl e ↦ rw e (stage_allowed v (c.stage v))
    | inr e ↦ rw e refl
  ]

  ending-allowed :
      (v : ProposalVersion) → allowed approving (status_of (ending sha256 dumps c v)) ≡ true
  unfolding ending
  ending-allowed v = head_allowed v (c.head v.campaign_id)

  claim-Edits :
      (k : Key) (o : Option ProposalVersion) (r : Repository)
      → IsKeyed r
      → lookup k r.items ≡ o
      → Edits r (claimed sha256 dumps c (claim_of k o r)).1
  unfolding claimed claim_of put
  claim-Edits k none r h found = kept
  claim-Edits k (some v) r h found = elim (Bool-cases (status_beq v.status draft)) [
    | inr closed ↦ rw closed kept
    | inl open' ↦ rw open' (
        Edits-trans
          (moves k v approving v.published_revision_id kept found
            (rw (status_beq_iff v.status draft open') refl))
          (conclude-Edits (record v { status = approving }) _ _
            (rw (h k v found) (lookup-insert_self k _ r.items))
            (ending-allowed (record v { status = approving }))))
  ]

  pub approve-Edits :
      (diff base payload : String) (k : Key) (o : Option ProposalVersion) (r : Repository)
      → IsKeyed r
      → lookup k r.items ≡ o
      → Edits r (approve_current sha256 dumps c diff base payload (get_of o) r).1
  unfolding approve_current claim get_of
  approve-Edits diff base payload k none r h found = kept
  approve-Edits diff base payload k (some v) r h found =
      elim (Bool-cases
        (diff == v.diff_digest && base == v.base_revision && payload == v.payload_digest)) [
          | inr other ↦ rw other kept
          | inl bound ↦ elim (Bool-cases (status_beq v.status published)) [
            | inl done ↦ rw (bound, done) kept
            | inr open' ↦ rw (bound, open', h k v found, found) (claim-Edits k (some v) r h found)
          ]
        ]
