-- ===== src/Revisions/Repository/Index.antt =====
-- Every intent stands once, under its own id; so one that is found by its token is found by its id.
use warden_drydock.Prelude.{
  String, ◌≡◌, refl, ◌∙◌, sym, ap, Bool, true, ◌&&◌, Option, none, some, [], ◌∷◌, arith, inl, inr,
  Mem, mem-filter, Bool-cases, ◌==◌, string_eq, filter,
}
use mathlib.Core.Path.{subst}
use mathlib.Core.Bool.{false≢true}
use text.Mathlib.TextEquality.{eq_iff}
use warden_drydock.Prelude.Dict.{lookup, insert, values, lookup-insert}
use warden_drydock.Revisions.Models.{
  SnapshotManifest, finalized, quarantined, status_beq, PublicationIntent,
}
use warden_drydock.Revisions.Repository.{
  Repository, add_intent, compare_and_swap, finalize_head, finalize_found, quarantine_intent,
  quarantine_found, matching_intents, publication_eligible, is_eligible, binds,
}
use warden_drydock.Revisions.Repository.Chain.{Intents}

abbrev pub IsIndexed : Intents → Type 0
IsIndexed [] = Unit
IsIndexed ((k, i) ∷ d) = (i.intent_id ≡ k) × (lookup k d ≡ none) × IsIndexed d

insert-IsIndexed :
    (id : String) (i : PublicationIntent) (d : Intents)
    → i.intent_id ≡ id
    → IsIndexed d
    → IsIndexed (insert id i d)
unfolding insert lookup
insert-IsIndexed id i [] named h = (named, refl, tt)
insert-IsIndexed id i ((k, j) ∷ d) named h =
    ground
      (arith, insert-IsIndexed id i d named h.2, eq_iff k id, eq_iff id k, lookup-insert id k i d)

pub add_intent-IsIndexed :
    (i : PublicationIntent) (r : Repository)
    → IsIndexed r.intents
    → IsIndexed (add_intent i r).1.intents
unfolding add_intent
add_intent-IsIndexed i r h = ground (arith, insert-IsIndexed i.intent_id i r.intents refl h)

lookup-id :
    (d : Intents) (id : String) (i : PublicationIntent)
    → IsIndexed d
    → lookup id d ≡ some i
    → i.intent_id ≡ id
unfolding lookup
lookup-id [] id i h e = absurd (cc)
lookup-id ((k, j) ∷ d) id i h e = ground (arith, eq_iff k id, lookup-id d id i h.2)

quarantine_found-IsIndexed :
    (id : String) (o : Option PublicationIntent) (r : Repository)
    → lookup id r.intents ≡ o
    → IsIndexed r.intents
    → IsIndexed (quarantine_found id o r).1.intents
unfolding quarantine_found
quarantine_found-IsIndexed id none r e h = h
quarantine_found-IsIndexed id (some i) r e h =
    insert-IsIndexed id (record i { status = quarantined }) r.intents (lookup-id r.intents id i h e)
      h

pub quarantine_intent-IsIndexed :
    (id : String) (r : Repository)
    → IsIndexed r.intents
    → IsIndexed (quarantine_intent id r).1.intents
unfolding quarantine_intent
quarantine_intent-IsIndexed id r h = quarantine_found-IsIndexed id _ r refl h

finalize_found-IsIndexed :
    (i : PublicationIntent) (o : Option PublicationIntent) (r : Repository)
    → IsIndexed r.intents
    → IsIndexed (finalize_found i o r).1.intents
unfolding finalize_found compare_and_swap
finalize_found-IsIndexed i none r h = h
finalize_found-IsIndexed i (some j) r h =
    ground (arith, insert-IsIndexed i.intent_id (record i { status = finalized }) r.intents refl h)

pub finalize_head-IsIndexed :
    (i : PublicationIntent) (r : Repository)
    → IsIndexed r.intents
    → IsIndexed (finalize_head i r).1.intents
unfolding finalize_head
finalize_head-IsIndexed i r h = finalize_found-IsIndexed i _ r h

pub lookup-values :
    (d : Intents) (i : PublicationIntent)
    → IsIndexed d
    → Mem i (values d)
    → lookup i.intent_id d ≡ some i
unfolding values lookup
lookup-values [] i h m = absurd m
lookup-values ((k, j) ∷ d) i h (inl e) =
    ground (arith, eq_iff k i.intent_id, ap (λ (x : PublicationIntent). x.intent_id) e)
lookup-values ((k, j) ∷ d) i h (inr m) =
    ground (arith, eq_iff k i.intent_id, lookup-values d i h.2 m)

pub lookup-matching :
    (token : String) (r : Repository) (i : PublicationIntent)
    → IsIndexed r.intents
    → Mem i (matching_intents token r)
    → (lookup i.intent_id r.intents ≡ some i) × (i.intent_token ≡ token)
unfolding matching_intents
lookup-matching token r i h m =
    let (found, same) =
      mem-filter (λ (j : PublicationIntent). j.intent_token == token) i (values r.intents) m in
    (lookup-values r.intents i h found, (eq_iff i.intent_token token).0 same)

pub publication_eligible-alone :
    (m : SnapshotManifest) (i : PublicationIntent) (r : Repository)
    → matching_intents m.publication_intent_token r ≡ i ∷ []
    → publication_eligible m r ≡ (status_beq i.status finalized && binds i m)
unfolding publication_eligible
publication_eligible-alone m i r alone = ap (λ is. is_eligible is m) alone

-- Replacing the only intent that a test selects leaves its replacement as the only one.
pub filter-insert :
    (p : PublicationIntent → Bool) (d : Intents) (i j : PublicationIntent)
    → IsIndexed d
    → lookup i.intent_id d ≡ some i
    → p j ≡ true
    → filter p (values d) ≡ i ∷ []
    → filter p (values (insert i.intent_id j d)) ≡ j ∷ []
unfolding filter values insert lookup
filter-insert p [] i j h e pj f = absurd (cc)
filter-insert p ((k, x) ∷ d) i j h e pj f = elim (Bool-cases (k == i.intent_id)) [
  | inl same ↦ elim (Bool-cases (p x)) [
    | inl px ↦ rw (same, pj) (ap (λ r. j ∷ r) (ground (arith, f, px)))
    | inr px ↦
        let again : lookup i.intent_id d ≡ some i =
          lookup-values d i h.2
            (mem-filter p i (values d) (subst (λ l. Mem i l) (sym (rw px at f)) (inl refl))).0 in
        absurd (ground (arith, (eq_iff k i.intent_id).0 same, h.1, again))
  ]
  | inr other ↦ elim (Bool-cases (p x)) [
    | inl px ↦
        let x_is : x ≡ i = ground (arith, f, px) in
        absurd (
          false≢true (
            sym other
            ∙ (eq_iff k i.intent_id).1
                (sym h.0 ∙ ap (λ (y : PublicationIntent). y.intent_id) x_is)))
    | inr px ↦ rw (other, px) (filter-insert p d i j h.2 (rw other at e) pj (rw px at f))
  ]
]
