-- ===== src/Revisions/Service/Outcomes.antt =====
-- How one reconciliation ends: what it has published, and what it puts away.
use warden_drydock.Prelude.{
  String, ◌≡◌, refl, ◌∙◌, ap, Bool, true, false, none, some, List, [], ◌∷◌, inl, inr, Bool-cases,
  arith, ◌&&◌, ◌==◌, nat_eq, option_eq, string_eq, pair_eq,
}
use mathlib.Core.Path.{subst}
use text.Mathlib.TextEquality.{eq_iff}
use warden_drydock.Prelude.Dict.{lookup, insert, lookup-insert_self}
use warden_drydock.Prelude.Result.{Result, ok, err}
use warden_drydock.Revisions.Models.{
  RevisionError, finalized, status_beq, FileHash, SnapshotManifest, PublicationIntent,
  manifest_beq_iff,
}
use warden_drydock.Revisions.Repository.{
  Repository, matching_intents, compare_and_swap, finalize_head, quarantine_intent, binds,
  publication_eligible, head_revision, next_ordinal,
}
use warden_drydock.Revisions.Repository.Index.{
  IsIndexed, lookup-matching, publication_eligible-alone, filter-insert,
}
use warden_drydock.Revisions.Store.{key_of, verify}
use warden_drydock.Revisions.Store.Laws.{lookup-quarantine_snapshot}
use warden_drydock.Revisions.Service.{
  World, settle, finish, with_matches, with_stored, reconcile_manifest, quarantine_intents,
  put_away,
}

quarantine-heads : (id : String) (r : Repository) → (quarantine_intent id r).1.heads ≡ r.heads
unfolding quarantine_intent
quarantine-heads id r = ground arith

quarantine_intents-heads :
    (is : List PublicationIntent) (r : Repository) → (quarantine_intents is r).heads ≡ r.heads
unfolding quarantine_intents
quarantine_intents-heads [] r = refl
quarantine_intents-heads (i ∷ is) r = ground (
  arith,
  quarantine_intents-heads is r,
  quarantine_intents-heads is (quarantine_intent i.intent_id r).1,
  quarantine-heads i.intent_id r,
)

-- A compare-and-swap that raises changes nothing.
finalize-err :
    (i : PublicationIntent) (r : Repository) (e : RevisionError)
    → (finalize_head i r).0 ≡ err e
    → (finalize_head i r).1 ≡ r
unfolding finalize_head
finalize-err i r e h = ground arith

-- How a reconciliation of a verified manifest ends. If it publishes, the manifest is the campaign's
-- head, it is eligible, and the store is as it was; if it had been published before, nothing
-- changes; if it raises, no head changes, and the snapshot is no longer in the store.
abbrev pub Outcome : SnapshotManifest → World → Result RevisionError Bool × World → Type 0
Outcome m w (ok true, w') =
    (lookup m.campaign_id w'.repository.heads ≡ some (m.revision_id, m.ordinal))
    × (publication_eligible m w'.repository ≡ true)
    × (w'.store ≡ w.store)
Outcome m w (ok false, w') = (w' ≡ w) × (publication_eligible m w.repository ≡ true)
Outcome m w (err _, w') =
    (w'.repository.heads ≡ w.repository.heads) × (lookup (key_of m) w'.store.snapshots ≡ none)

module _ (m : SnapshotManifest) (i : PublicationIntent) (w : World)
    (indexed : IsIndexed w.repository.intents)
    (alone : matching_intents m.publication_intent_token w.repository ≡ i ∷ [])
    (bound : binds i m ≡ true) where
  stored : lookup i.intent_id w.repository.intents ≡ some i
  stored =
      (lookup-matching m.publication_intent_token w.repository i indexed (rw alone (inl refl))).0

  same_token : i.intent_token ≡ m.publication_intent_token
  same_token =
      (lookup-matching m.publication_intent_token w.repository i indexed (rw alone (inl refl))).1

  eligible_if :
      (r : Repository) (j : PublicationIntent)
      → matching_intents m.publication_intent_token r ≡ j ∷ []
      → status_beq j.status finalized ≡ true
      → binds j m ≡ true
      → publication_eligible m r ≡ true
  eligible_if r j one done b = publication_eligible-alone m j r one ∙ rw (done, b)

  campaign_is : i.campaign_id ≡ m.campaign_id
  unfolding binds
  campaign_is = ground (arith, bound, eq_iff i.campaign_id m.campaign_id)

  revision_is : (i.revision_id ≡ m.revision_id) × (i.ordinal ≡ m.ordinal)
  unfolding binds
  revision_is = ground (arith, bound, eq_iff i.revision_id m.revision_id)

  bound_again : binds (record i { status = finalized }) m ≡ true
  unfolding binds
  bound_again = bound

  published-Outcome :
      (audit : _)
      → Outcome m w (
        ok true,
        record w {
          repository = record {
            intents = insert i.intent_id (record i { status = finalized }) w.repository.intents;
            heads = insert i.campaign_id (i.revision_id, i.ordinal) w.repository.heads;
            audit = audit;
          };
        },
      )
  unfolding matching_intents status_beq
  published-Outcome audit = (
    subst
        (λ c.
          lookup c (insert i.campaign_id (i.revision_id, i.ordinal) w.repository.heads)
          ≡ some (m.revision_id, m.ordinal))
        campaign_is
        (lookup-insert_self i.campaign_id (i.revision_id, i.ordinal) w.repository.heads
          ∙ ground (arith, revision_is)),
    eligible_if
        (record {
          intents = insert i.intent_id (record i { status = finalized }) w.repository.intents;
          heads = insert i.campaign_id (i.revision_id, i.ordinal) w.repository.heads;
          audit = audit;
        })
        (record i { status = finalized })
        (filter-insert _ w.repository.intents i (record i { status = finalized }) indexed stored
          ((eq_iff i.intent_token m.publication_intent_token).1 same_token) alone)
        refl (bound_again),
    refl,
  )

  swap-Outcome : Outcome m w (settle m i w (compare_and_swap i i w.repository))
  unfolding settle compare_and_swap put_away
  swap-Outcome = elim (Bool-cases (status_beq i.status finalized)) [
    | inl done ↦ rw done (refl, eligible_if w.repository i alone done bound)
    | inr open' ↦
        elim (Bool-cases (
          head_revision (lookup i.campaign_id w.repository.heads) == i.parent_revision
          && next_ordinal (lookup i.campaign_id w.repository.heads) == i.ordinal)) [
            | inl fits ↦ rw (open', fits) (published-Outcome _)
            | inr stale ↦
                rw (open', stale)
                  (
                    quarantine-heads i.intent_id w.repository,
                    lookup-quarantine_snapshot (key_of m) _ w.store,
                  )
          ]
  ]

  finish-Outcome : (prepared : Bool) → Outcome m w (finish prepared m i w)
  unfolding finish put_away finalize_head
  finish-Outcome true = rw stored swap-Outcome
  finish-Outcome false =
      (quarantine-heads i.intent_id w.repository, lookup-quarantine_snapshot (key_of m) _ w.store)

with_matches-Outcome :
    (prepared : Bool) (m : SnapshotManifest) (is : List PublicationIntent) (w : World)
    → IsIndexed w.repository.intents
    → matching_intents m.publication_intent_token w.repository ≡ is
    → Outcome m w (with_matches prepared m is w)
unfolding with_matches
with_matches-Outcome prepared m [] w h e =
    (quarantine_intents-heads [] w.repository, lookup-quarantine_snapshot (key_of m) _ w.store)
with_matches-Outcome prepared m (i ∷ []) w h e = elim (Bool-cases (binds i m)) [
  | inl bound ↦ rw bound (finish-Outcome m i w h e bound prepared)
  | inr other ↦ rw other (
    quarantine_intents-heads (i ∷ []) w.repository,
    lookup-quarantine_snapshot (key_of m) _ w.store,
  )
]
with_matches-Outcome prepared m (i ∷ j ∷ is) w h e = (
  quarantine_intents-heads (i ∷ j ∷ is) w.repository,
  lookup-quarantine_snapshot (key_of m) _ w.store,
)

module _ (sha256 : String → String) (dumps : List FileHash → String) where
  -- A reconciliation of a manifest that the store verifies ends in one of three ways. It publishes:
  -- the manifest is then its campaign's head, it is eligible, and the store has not changed. It finds
  -- the intent finalized already: then the manifest is eligible and nothing at all has changed. It
  -- raises: then no campaign's head has changed and the snapshot is no longer among the snapshots.
  pub reconcile_manifest-Outcome :
      (prepared : Bool) (m : SnapshotManifest) (w : World)
      → IsIndexed w.repository.intents
      → verify sha256 dumps (key_of m) w.store ≡ ok m
      → Outcome m w (reconcile_manifest sha256 dumps prepared m w)
  unfolding reconcile_manifest
  reconcile_manifest-Outcome prepared m w h e =
      rw (ap (λ x. with_stored sha256 dumps prepared m x w) e) (with_ok prepared m w h)
    where
      with_ok :
          (prepared : Bool) (m : SnapshotManifest) (w : World)
          → IsIndexed w.repository.intents
          → Outcome m w (with_stored sha256 dumps prepared m (ok m) w)
      with_ok prepared m w h =
          rw ((manifest_beq_iff m m).1 refl) (with_matches-Outcome prepared m _ w h refl)
