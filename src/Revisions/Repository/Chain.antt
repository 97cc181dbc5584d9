-- ===== src/Revisions/Repository/Chain.antt =====
-- How the head of a campaign came about: a chain of registered intents.
use warden_drydock.Prelude.{
  String, ◌≡◌, refl, ◌∙◌, sym, ap, false, ◌&&◌, Option, none, some, List, arith, inl, inr,
  Bool-cases, &&-true, ◌==◌, nat_eq, string_eq, option_eq, option_beq_iff, nat_beq_iff,
}
use text.Mathlib.TextEquality.{eq_iff}
use warden_drydock.Prelude.Dict.{Dict, lookup, insert, values, lookup-insert}
use warden_drydock.Revisions.Models.{
  IntentStatus, finalized, quarantined, status_beq, PublicationIntent, intent_beq_iff,
}
use warden_drydock.Revisions.Repository.{
  Head, Repository, empty, head_revision, next_ordinal, add_intent, compare_and_swap, finalize_head,
  quarantine_intent, conflicts_with, token_owned, finalize_found, quarantine_found,
}

abbrev pub Intents : Type 0
Intents = Dict String PublicationIntent

-- The repository has the intent, with whatever status it has reached.
pub record Registered (d : Intents) (i : PublicationIntent) : Type 0 where
  pub status : IntentStatus
  pub stored : lookup i.intent_id d ≡ some (record i { status = status })

-- The head is nothing, or the revision of a registered intent that names the head before it as its
-- parent and has the next ordinal.
pub data Published (d : Intents) (campaign : String) : Head → Type 0 where
  unpublished : Published d campaign none
  published :
      {h : Head} (i : PublicationIntent)
      → Published d campaign h
      → Registered d i
      → i.campaign_id ≡ campaign
      → i.parent_revision ≡ head_revision h
      → i.ordinal ≡ next_ordinal h
      → Published d campaign (some (i.revision_id, i.ordinal))

-- Every intent that one dictionary has, the other has with some status.
abbrev pub Extends : Intents → Intents → Type 0
Extends d e = (i : PublicationIntent) → Registered d i → Registered e i

Published-Extends :
    {d e : Intents} {campaign : String} {h : Head}
    → Extends d e
    → Published d campaign h
    → Published e campaign h
Published-Extends x unpublished = unpublished
Published-Extends x (published i before r c p o) =
    published i (Published-Extends x before) (x i r) c p o

-- The invariant: every campaign's head is the end of such a chain, and intents stand under their ids.
pub record IsChained (r : Repository) : Type 0 where
  pub heads : (campaign : String) → Published r.intents campaign (lookup campaign r.heads)
  pub ids : (id : String) (i : PublicationIntent) → lookup id r.intents ≡ some i → i.intent_id ≡ id

pub empty-IsChained : IsChained empty
unfolding lookup
empty-IsChained = record { heads = λ c. unpublished; ids = λ id i e. cc }

-- Writing an intent under its id, where that id is new or has the same intent with another status.
insert-Extends :
    (d : Intents) (id : String) (i : PublicationIntent)
    → i.intent_id ≡ id
    → ((j : PublicationIntent) → lookup id d ≡ some j → j ≡ record i { status = j.status })
    → Extends d (insert id i d)
insert-Extends d id i named same j r = elim (Bool-cases (id == j.intent_id)) [
  | inl e ↦
      let found : lookup id d ≡ some (record j { status = r.status }) =
        rw ((eq_iff id j.intent_id).0 e) r.stored in
      record {
        status = i.status;
        stored =
            lookup-insert id j.intent_id i d
            ∙ rw e (ground (arith, same (record j { status = r.status }) found));
      }
  | inr e ↦ record { status = r.status; stored = lookup-insert id j.intent_id i d ∙ rw e r.stored }
]

insert-ids :
    (d : Intents) (id : String) (i : PublicationIntent)
    → i.intent_id ≡ id
    → ((k : String) (j : PublicationIntent) → lookup k d ≡ some j → j.intent_id ≡ k)
    → (k : String) (j : PublicationIntent) → lookup k (insert id i d) ≡ some j
    → j.intent_id ≡ k
insert-ids d id i named h k j e = ground (arith, lookup-insert id k i d, eq_iff id k, h k j)

insert-IsChained :
    (id : String) (i : PublicationIntent) (r : Repository) (audit : List (String × IntentStatus))
    → i.intent_id ≡ id
    → ((j : PublicationIntent) → lookup id r.intents ≡ some j → j ≡ record i { status = j.status })
    → IsChained r
    → IsChained (record r { intents = insert id i r.intents; audit = audit })
insert-IsChained id i r audit named same h = record {
  heads = λ c. Published-Extends (insert-Extends r.intents id i named same) (h.heads c);
  ids = insert-ids r.intents id i named h.ids;
}

no_conflict :
    (i j : PublicationIntent) (o : Option PublicationIntent)
    → conflicts_with i o ≡ false
    → o ≡ some j
    → j ≡ record i { status = j.status }
unfolding conflicts_with
no_conflict i j none e f = absurd (cc)
no_conflict i j (some k) e f = ground (arith, intent_beq_iff k i)

pub add_intent-IsChained :
    (i : PublicationIntent) (r : Repository) → IsChained r → IsChained (add_intent i r).1
unfolding add_intent
add_intent-IsChained i r h = elim (Bool-cases (conflicts_with i (lookup i.intent_id r.intents))) [
  | inl e ↦ rw e h
  | inr e ↦ elim (Bool-cases (token_owned i (values r.intents))) [
    | inl owned ↦ rw (e, owned) h
    | inr free ↦
        rw (e, free)
          (insert-IsChained i.intent_id i r r.audit refl
            (λ j f. no_conflict i j (lookup i.intent_id r.intents) e f) h)
  ]
]

quarantine_found-IsChained :
    (id : String) (o : Option PublicationIntent) (r : Repository)
    → lookup id r.intents ≡ o
    → IsChained r
    → IsChained (quarantine_found id o r).1
unfolding quarantine_found
quarantine_found-IsChained id none r e h = h
quarantine_found-IsChained id (some i) r e h =
    insert-IsChained id (record i { status = quarantined }) r _ (h.ids id i e)
      (λ j f. ground (arith, e, f)) h

pub quarantine_intent-IsChained :
    (id : String) (r : Repository) → IsChained r → IsChained (quarantine_intent id r).1
unfolding quarantine_intent
quarantine_intent-IsChained id r h = quarantine_found-IsChained id _ r refl h

swapped-IsChained :
    (i : PublicationIntent) (r : Repository) (audit : List (String × IntentStatus))
    → lookup i.intent_id r.intents ≡ some i
    → head_revision (lookup i.campaign_id r.heads) ≡ i.parent_revision
    → next_ordinal (lookup i.campaign_id r.heads) ≡ i.ordinal
    → IsChained r
    → IsChained (record {
      intents = insert i.intent_id (record i { status = finalized }) r.intents;
      heads = insert i.campaign_id (i.revision_id, i.ordinal) r.heads;
      audit = audit;
    })
swapped-IsChained i r audit e parent ordinal h = record { heads = chain; ids = base.ids }
  where
    x : Extends r.intents (insert i.intent_id (record i { status = finalized }) r.intents)
    x =
        insert-Extends r.intents i.intent_id (record i { status = finalized }) refl
          (λ j f. ground (arith, e, f))

    base : IsChained (record r {
      intents = insert i.intent_id (record i { status = finalized }) r.intents;
      audit = audit;
    })
    base =
        insert-IsChained i.intent_id (record i { status = finalized }) r audit refl
          (λ j f. ground (arith, e, f)) h

    chain :
        (c : String)
        → Published
            (insert i.intent_id (record i { status = finalized }) r.intents)
            c
            (lookup c (insert i.campaign_id (i.revision_id, i.ordinal) r.heads))
    chain c = elim (Bool-cases (i.campaign_id == c)) [
      | inl same ↦
          rw (lookup-insert i.campaign_id c (i.revision_id, i.ordinal) r.heads, same)
            (published i (base.heads c) (x i (record { status = i.status; stored = e }))
              ((eq_iff i.campaign_id c).0 same)
              (sym parent
                ∙ ap (λ k. head_revision (lookup k r.heads)) ((eq_iff i.campaign_id c).0 same))
              (sym ordinal
                ∙ ap (λ k. next_ordinal (lookup k r.heads)) ((eq_iff i.campaign_id c).0 same)))
      | inr other ↦
          rw (lookup-insert i.campaign_id c (i.revision_id, i.ordinal) r.heads, other)
            (base.heads c)
    ]

compare_and_swap-IsChained :
    (i : PublicationIntent) (r : Repository)
    → lookup i.intent_id r.intents ≡ some i
    → IsChained r
    → IsChained (compare_and_swap i i r).1
unfolding compare_and_swap
compare_and_swap-IsChained i r e h = elim (Bool-cases (status_beq i.status finalized)) [
  | inl done ↦ rw done h
  | inr open' ↦
      let current = lookup i.campaign_id r.heads in
      elim (Bool-cases
        (head_revision current == i.parent_revision && next_ordinal current == i.ordinal)) [
          | inl fits ↦
              let (parent, ordinal) = &&-true _ _ fits in
              rw (open', fits)
                (swapped-IsChained i r _ e ((option_beq_iff _ _).0 parent)
                  ((nat_beq_iff _ _).0 ordinal) h)
          | inr stale ↦ rw (open', stale) h
        ]
]

-- The compare-and-swap keeps the chain of an intent that the repository holds as it is given.
pub finalize_head-IsChained :
    (i : PublicationIntent) (r : Repository)
    → lookup i.intent_id r.intents ≡ some i
    → IsChained r
    → IsChained (finalize_head i r).1
unfolding finalize_head
finalize_head-IsChained i r e h = rw (e, finalize_found) (compare_and_swap-IsChained i r e h)
