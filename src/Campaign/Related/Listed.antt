-- ===== src/Campaign/Related/Listed.antt =====
-- The list that a neighbourhood is returned as.
use mathlib.Core.Bool.{false≢true}
use text.Mathlib.TextEquality.{eq_iff}
use warden_drydock.Prelude.{
  ℕ, String, ◌≡◌, refl, sym, ◌∙◌, true, false, List, [], ◌∷◌, not, ◌↔◌, inl, inr, Option, ◌==◌,
  string_eq, contains, filter, map, arith, Bool-cases, Option-cases, beq_self,
}
use warden_drydock.Prelude.Dict.{lookup}
use warden_drydock.Prelude.Sets.{
  distinct, contains-filter, contains-sort, distinct-sort, distinct-filter,
}
use warden_drydock.Prelude.Text.{str_leb}
use warden_drydock.Prelude.Result.{ok}
use warden_drydock.Campaign.Json.{Json}
use warden_drydock.Campaign.Graph.{Entity, Graph}
use warden_drydock.Campaign.Graph.Collected.{IsKeyed}
use warden_drydock.Campaign.Rules.Accepted.{graph_or_exit-IsKeyed}
use warden_drydock.Campaign.Rules.{Root, graph_or_exit}
use warden_drydock.Campaign.Related.{
  is_known, expand, ordered_ids, entities_at, related_in, related_entities, pos, or_refused,
}
use warden_drydock.Campaign.Related.Within.{Within, start, step, expand-Within, distinct-expand}

module _ (g : Graph) (focus : String) (depth : ℕ) where
  abbrev selected : List String
  selected = expand g depth (focus ∷ []) (focus ∷ [])

  contains-ordered_ids : (x : String) → contains x (ordered_ids g focus depth) ≡ contains x selected
  unfolding ordered_ids
  contains-ordered_ids x =
      let here : contains focus selected ≡ true = (expand-Within g focus depth focus).1 start in
      let others = contains-filter (λ k. not (k == focus)) x selected in
      let sorted = contains-sort str_leb x (filter (λ k. not (k == focus)) selected) in
      elim (Bool-cases (x == focus)) [
        | inl same ↦
            let at : contains x selected ≡ true = rw ((eq_iff x focus).0 same) here in
            ground (arith, same, at)
        | inr other ↦ ground (arith, other, others, sorted)
      ]

  -- An entity is listed exactly when a walk of at most `depth` connections leads to it.
  pub ordered_ids-Within :
      (x : String) → (contains x (ordered_ids g focus depth) ≡ true) ↔ Within g focus depth x
  ordered_ids-Within x =
      let (sound, full) = expand-Within g focus depth x in
      ((λ h. sound (sym (contains-ordered_ids x) ∙ h)), (λ w. contains-ordered_ids x ∙ full w))

  distinct-ordered_ids : distinct (ordered_ids g focus depth) ≡ true
  unfolding ordered_ids distinct
  distinct-ordered_ids =
      let once : distinct selected ≡ true =
        distinct-expand g depth (focus ∷ []) (focus ∷ []) refl in
      let others = filter (λ k. not (k == focus)) selected in
      let sorted =
        distinct-sort str_leb others (distinct-filter (λ k. not (k == focus)) selected once) in
      let absent = contains-filter (λ k. not (k == focus)) focus selected in
      ground (arith, sorted, absent, contains-sort str_leb focus others, beq_self focus)

is_known_within :
    (g : Graph) (focus : String) {n : ℕ} {x : String}
    → is_known g focus ≡ true
    → Within g focus n x
    → is_known g x ≡ true
is_known_within g focus h start = h
is_known_within g focus h (step w l k) = k

-- A lookup of known IDs returns their entities in order.
entities_at_known :
    (g : Graph) (ks : List String)
    → IsKeyed g.entities
    → ((x : String) → contains x ks ≡ true → is_known g x ≡ true)
    → (es : List Entity) × (entities_at g ks ≡ ok es) × (map (λ e. e.entity_id) es ≡ ks)
unfolding entities_at
entities_at_known g [] keyed h = ([], refl, refl)
entities_at_known g (k ∷ ks) keyed h =
    let (es, found, ids) = entities_at_known g ks keyed (λ x m. h x (ground (arith, m))) in
    let known : is_known g k ≡ true = h k (rw (beq_self k) refl) in
    elim (Option-cases (lookup k g.entities)) [
      | inl missing ↦ absurd (
          let no : is_known g k ≡ false = rw (is_known, missing) refl in
          false≢true (sym no ∙ known))
      | inr (e, here) ↦ (e ∷ es, rw (here, found) refl, rw (keyed k e here, ids) refl)
    ]

module _ (casefold : String → String) (loads : String → Option Json) (root : Root) where
  -- From an entity of an accepted graph the neighbourhood is returned: the focus first, each entity once,
  -- and an entity is returned exactly when a walk of at most `depth` connections leads to it, in either
  -- direction of each connection.
  pub related_entities-Within :
      (g : Graph) (focus : String) (depth : ℕ)
      → graph_or_exit casefold loads root ≡ ok g
      → is_known g focus ≡ true
      → (es : List Entity) × (related_entities casefold loads root focus (pos depth) ≡ ok es)
        × (map (λ e. e.entity_id) es ≡ ordered_ids g focus depth)
        × (distinct (map (λ e. e.entity_id) es) ≡ true)
        × ((x : String) → (contains x (map (λ e. e.entity_id) es) ≡ true) ↔ Within g focus depth x)
  unfolding related_entities related_in or_refused
  related_entities-Within g focus depth accepted known =
      let (es, found, ids) =
        entities_at_known g (ordered_ids g focus depth)
          (graph_or_exit-IsKeyed casefold loads root g accepted)
          (λ x m. is_known_within g focus known ((ordered_ids-Within g focus depth x).0 m)) in
      (
        es,
        rw (accepted, known) found,
        ids,
        rw ids (distinct-ordered_ids g focus depth),
        (λ x. rw ids (ordered_ids-Within g focus depth x)),
      )
