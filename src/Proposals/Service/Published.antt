-- ===== src/Proposals/Service/Published.antt =====
-- What an approval that publishes has seen.
use warden_drydock.Prelude.{
  String, ◌≡◌, refl, ◌∙◌, sym, ap, true, ◌&&◌, Option, none, some, List, inl, inr, ◌⊎◌, Bool-cases,
  nat_eq, string_eq, option_eq, pair_eq, ◌==◌,
}
use warden_drydock.Prelude.Dict.{lookup, lookup-insert_self}
use warden_drydock.Prelude.Result.{Result, ok, err}
use warden_drydock.Revisions.Models.{SnapshotManifest}
use warden_drydock.Proposals.Models.{
  ProposalError, value_error, key_error, stale_head, other_error, ProposalStatus, draft, approving,
  conflict, published, quarantined, status_beq, ProposalVersion,
}
use warden_drydock.Proposals.Digests.{ChangeDigest}
use warden_drydock.Proposals.Repository.{
  Key, Repository, key_of, get, get_of, put, replace_status, replace_status_of, claim, claim_of,
  finalize, finalize_of, rebinds,
}
use warden_drydock.Proposals.Machine.{IsKeyed}
use warden_drydock.Proposals.Service.{
  Publication, nothing, other_value, snapshot, staged, invalid, failed, StageStatus, Callbacks,
  Ending, sets, finalizes, conclude, is_bound, approve, ending, claimed, approve_current,
  after_head, after_stage, after_publish,
}
use warden_drydock.Proposals.Service.Writes.{status_of, status_beq_iff}
use text.Mathlib.TextEquality.{eq_iff}
use warden_drydock.Prelude.{option_beq_iff, &&-true}

ok-injective :
    {a b : ProposalVersion} → ◌≡◌ {A = Result ProposalError ProposalVersion} (ok a) (ok b) → a ≡ b
ok-injective e = cc

err≢ok :
    {e : ProposalError} {b : ProposalVersion}
    → ◌≡◌ {A = Result ProposalError ProposalVersion} (err e) (ok b)
    → ⊥
err≢ok h = cc

replaced_status :
    (k : Key) (v w : ProposalVersion) (s : ProposalStatus) (r : Repository)
    → (replace_status_of k s (some v) r).0 ≡ ok w
    → w.status ≡ s
unfolding replace_status_of
replaced_status k v w s r e = elim (Bool-cases (status_beq v.status s)) [
  | inl same ↦
      sym (ap (λ (x : ProposalVersion). x.status) (ok-injective (rw same at e)))
      ∙ status_beq_iff v.status s same
  | inr other ↦ sym (ap (λ (x : ProposalVersion). x.status) (ok-injective (rw other at e)))
]

finalized_status :
    (k : Key) (v w : ProposalVersion) (s : ProposalStatus) (revision : Option String)
    (r : Repository)
    → (finalize_of k s revision (some v) r).0 ≡ ok w
    → w.status ≡ s
unfolding finalize_of
finalized_status k v w s revision r e = elim (Bool-cases (status_beq v.status s)) [
  | inl same ↦ elim (Bool-cases (rebinds revision v)) [
    | inl clash ↦ absurd (err≢ok (rw (same, clash) at e))
    | inr fits ↦
        sym (ap (λ (x : ProposalVersion). x.status) (ok-injective (rw (same, fits) at e)))
        ∙ status_beq_iff v.status s same
  ]
  | inr other ↦ sym (ap (λ (x : ProposalVersion). x.status) (ok-injective (rw other at e)))
]

concluded_status :
    (v w : ProposalVersion) (x : Ending) (r : Repository)
    → lookup (key_of v) r.items ≡ some v
    → (conclude v x r).0 ≡ ok w
    → w.status ≡ status_of x
unfolding conclude replace_status finalize
concluded_status v w (sets s) r found e = replaced_status (key_of v) v w s r (rw found at e)
concluded_status v w (finalizes s m) r found e =
    finalized_status (key_of v) v w s _ r (rw found at e)

module _ (sha256 : String → String) (dumps : List ChangeDigest → String) (c : Callbacks) where
  -- What the callbacks have answered for the claimed version.
  pub record Grant (v : ProposalVersion) : Type 0 where
    pub manifest : SnapshotManifest
    pub at_head : c.head v.campaign_id ≡ ok (some v.base_revision)
    pub is_staged : c.stage v ≡ ok staged
    pub published_as : c.publish v ≡ ok (snapshot manifest)
    pub bound : is_bound sha256 dumps c v manifest ≡ true

  publish_grants :
      (v : ProposalVersion) (x : Result ProposalError Publication)
      → c.head v.campaign_id ≡ ok (some v.base_revision)
      → c.stage v ≡ ok staged
      → c.publish v ≡ x
      → status_of (after_publish sha256 dumps c v x) ≡ published
      → Grant v
  unfolding after_publish
  publish_grants v (err stale_head) h s p e = absurd (cc)
  publish_grants v (err value_error) h s p e = absurd (cc)
  publish_grants v (err key_error) h s p e = absurd (cc)
  publish_grants v (err other_error) h s p e = absurd (cc)
  publish_grants v (ok nothing) h s p e = absurd (cc)
  publish_grants v (ok other_value) h s p e = absurd (cc)
  publish_grants v (ok (snapshot m)) h s p e = elim (Bool-cases (is_bound sha256 dumps c v m)) [
    | inl b ↦ record { manifest = m; at_head = h; is_staged = s; published_as = p; bound = b }
    | inr b ↦ absurd (other (rw b at e))
  ]
    where
      other : quarantined ≡ published → ⊥
      other q = cc

  stage_grants :
      (v : ProposalVersion) (x : Result ProposalError StageStatus)
      → c.head v.campaign_id ≡ ok (some v.base_revision)
      → c.stage v ≡ x
      → status_of (after_stage sha256 dumps c v x) ≡ published
      → Grant v
  unfolding after_stage
  stage_grants v (ok staged) h s e = publish_grants v (c.publish v) h s refl e
  stage_grants v (ok invalid) h s e = absurd (cc)
  stage_grants v (ok failed) h s e = absurd (cc)
  stage_grants v (err x) h s e = absurd (cc)

  head_grants :
      (v : ProposalVersion) (x : Result ProposalError (Option String))
      → c.head v.campaign_id ≡ x
      → status_of (after_head sha256 dumps c v x) ≡ published
      → Grant v
  unfolding after_head
  head_grants v (err x) h e = absurd (cc)
  head_grants v (ok head) h e = elim (Bool-cases (head == some v.base_revision)) [
    | inl same ↦
        stage_grants v (c.stage v) (h ∙ ap ok ((option_beq_iff head (some v.base_revision)).0 same))
          refl (rw same at e)
    | inr other ↦ absurd (conflict_is (rw other at e))
  ]
    where
      conflict_is : conflict ≡ published → ⊥
      conflict_is q = cc

  -- What an approval that publishes has found: the stored draft with the three digests and revisions
  -- that the approval named, and what the callbacks answered once it was claimed.
  pub record Approved (k : Key) (diff base payload : String) (r : Repository) : Type 0 where
    pub current : ProposalVersion
    pub stored : lookup k r.items ≡ some current
    pub was_draft : current.status ≡ draft
    pub diff_is : diff ≡ current.diff_digest
    pub base_is : base ≡ current.base_revision
    pub payload_is : payload ≡ current.payload_digest
    pub grant : Grant (record current { status = approving })

  claimed_grants :
      (k : Key) (v w : ProposalVersion) (r : Repository)
      → IsKeyed r
      → lookup k r.items ≡ some v
      → (claimed sha256 dumps c (claim_of k (some v) r)).0 ≡ ok w
      → w.status ≡ published
      → (v.status ≡ draft) × Grant (record v { status = approving })
  unfolding claimed claim_of put ending
  claimed_grants k v w r h found e p = elim (Bool-cases (status_beq v.status draft)) [
    | inr closed ↦ absurd (err≢ok (rw closed at e))
    | inl open' ↦
        let claim_is : (conclude (record v { status = approving })
              (ending sha256 dumps c (record v { status = approving }))
              (put k (record v { status = approving }) r)).0
            ≡ ok w =
          rw open' at e in
        (
          status_beq_iff v.status draft open',
          head_grants (record v { status = approving }) _ refl
              (sym (
                  concluded_status (record v { status = approving }) w _ _
                    (rw (h k v found) (lookup-insert_self k _ r.items)) claim_is)
                ∙ p),
        )
  ]

  approve_grants :
      (diff base payload : String) (k : Key) (o : Option ProposalVersion) (r : Repository)
      (w : ProposalVersion)
      → IsKeyed r
      → lookup k r.items ≡ o
      → (approve_current sha256 dumps c diff base payload (get_of o) r).0 ≡ ok w
      → w.status ≡ published
      → (lookup k r.items ≡ some w) ⊎ Approved k diff base payload r
  unfolding approve_current claim get_of
  approve_grants diff base payload k none r w h found e p = absurd (err≢ok e)
  approve_grants diff base payload k (some v) r w h found e p =
      elim (Bool-cases
        (diff == v.diff_digest && base == v.base_revision && payload == v.payload_digest)) [
          | inr other ↦ absurd (err≢ok (rw other at e))
          | inl bound ↦ elim (Bool-cases (status_beq v.status published)) [
            | inl done ↦ inl (found ∙ ap some (ok-injective (rw (bound, done) at e)))
            | inr open' ↦
                let (d, g) =
                  claimed_grants k v w r h found (rw (bound, open', h k v found, found) at e) p in
                let (both, payload_same) =
                  &&-true (diff == v.diff_digest && base == v.base_revision)
                    (payload == v.payload_digest) bound in
                let (diff_same, base_same) =
                  &&-true (diff == v.diff_digest) (base == v.base_revision) both in
                inr (record {
                  current = v;
                  stored = found;
                  was_draft = d;
                  diff_is = (eq_iff diff v.diff_digest).0 diff_same;
                  base_is = (eq_iff base v.base_revision).0 base_same;
                  payload_is = (eq_iff payload v.payload_digest).0 payload_same;
                  grant = g;
                })
          ]
        ]

  -- An approval returns a published version only if that very version was stored as published
  -- before, or if the stored version was a draft with the diff digest, base revision and payload
  -- digest that the approval names, its base revision was the head of the campaign, its changes were
  -- staged, and publishing gave a snapshot of that campaign whose parent is the base revision and
  -- whose change digest is the version's. (It is assumed that versions stand under their own keys.)
  pub approve-Approved :
      (version : ProposalVersion) (diff base payload : String) (r : Repository)
      (w : ProposalVersion)
      → IsKeyed r
      → (approve sha256 dumps c version diff base payload r).0 ≡ ok w
      → w.status ≡ published
      → (lookup (key_of version) r.items ≡ some w) ⊎ Approved (key_of version) diff base payload r
  unfolding approve get
  approve-Approved version diff base payload r w h e p =
      approve_grants diff base payload (key_of version) _ r w h refl e p
