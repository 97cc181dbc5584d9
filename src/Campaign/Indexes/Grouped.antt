-- ===== src/Campaign/Indexes/Grouped.antt =====
-- The groups of connections that the indexes are written from, and what the connection index lists.
use package.text.Mathlib.TextEquality.{eq_iff}
use warden_drydock.Prelude.{
  String, ◌≡◌, refl, sym, ◌∙◌, ap, Bool, true, List, [], ◌∷◌, ◌++◌, inl, inr, filter, map,
  if◌then◌else◌, ◌==◌, string_eq, Bool-cases, beq_self, Mem, Mem-append_left, Mem-append_right,
  append_nil, append_assoc,
}
use warden_drydock.Prelude.Dict.{Dict, lookup, lookup-insert, keys}
use warden_drydock.Prelude.Sort.{mem-sort}
use warden_drydock.Campaign.Connections.{Connection}
use warden_drydock.Campaign.Graph.{Entity, Graph}
use warden_drydock.Campaign.Indexes.{
  append_at, or_nil, grouped, empty_groups, group_at, outgoing, incoming, outgoing_line,
  backlink_line, connection_lines, by_target, by_source,
}

group_at-append_at :
    (k j : String) (c : Connection) (d : Dict String (List Connection))
    → group_at k (append_at j c d) ≡ group_at k d ++ (if j == k then c ∷ [] else [])
unfolding group_at append_at
group_at-append_at k j c d = elim (Bool-cases (j == k)) [
  | inl same ↦
      ap or_nil (lookup-insert j k (group_at j d ++ c ∷ []) d)
      ∙ rw same (ap (λ i. group_at i d ++ c ∷ []) ((eq_iff j k).0 same))
  | inr other ↦
      ap or_nil (lookup-insert j k (group_at j d ++ c ∷ []) d)
      ∙ rw other (sym (append_nil (group_at k d)))
]

group_at-grouped :
    (key : Connection → String) (cs : List Connection) (d : Dict String (List Connection))
    (k : String)
    → group_at k (grouped key cs d) ≡ group_at k d ++ filter (λ c. key c == k) cs
unfolding grouped filter
group_at-grouped key [] d k = sym (append_nil (group_at k d))
group_at-grouped key (c ∷ cs) d k =
    group_at-grouped key cs (append_at (key c) c d) k
    ∙ rw (group_at-append_at k (key c) c d) (
        append_assoc (group_at k d) (if key c == k then c ∷ [] else [])
          (filter (λ x. key x == k) cs)
        ∙ ap (λ r. group_at k d ++ r)
            (elim (Bool-cases (key c == k)) [ inl e ↦ rw e refl | inr e ↦ rw e refl ]))

group_at-empty_groups : (ks : List String) (k : String) → group_at k (empty_groups ks) ≡ []
unfolding group_at empty_groups lookup
group_at-empty_groups [] k = refl
group_at-empty_groups (j ∷ ks) k = elim (Bool-cases (j == k)) [
  | inl e ↦ rw (group_at, e) refl
  | inr e ↦ rw (group_at, e) (group_at-empty_groups ks k)
]

-- The groups hold the connections by source and by target, in the order of the graph.
pub group_at-outgoing :
    (g : Graph) (k : String)
    → (group_at k (outgoing g) ≡ filter (λ c. c.source_id == k) g.connections)
      × (group_at k (incoming g) ≡ filter (λ c. c.target_id == k) g.connections)
unfolding outgoing incoming
group_at-outgoing g k =
    let start = group_at-empty_groups (keys g.entities) k in
    (
      group_at-grouped (λ c. c.source_id) g.connections (empty_groups (keys g.entities)) k
          ∙ rw start refl,
      group_at-grouped (λ c. c.target_id) g.connections (empty_groups (keys g.entities)) k
          ∙ rw start refl,
    )

filter-mem :
    {A : Type 0} (p : A → Bool) (a : A) (xs : List A) → Mem a xs → p a ≡ true → Mem a (filter p xs)
unfolding filter
filter-mem p a [] m h = absurd m
filter-mem p a (x ∷ xs) (inl e) h = let h' : p x ≡ true = rw e at h in rw h' (inl e)
filter-mem p a (x ∷ xs) (inr m) h = elim (Bool-cases (p x)) [
  | inl e ↦ rw e (inr (filter-mem p a xs m h))
  | inr e ↦ rw e (filter-mem p a xs m h)
]

map-mem : {A B : Type 0} (f : A → B) (a : A) (xs : List A) → Mem a xs → Mem (f a) (map f xs)
map-mem f a [] m = absurd m
map-mem f a (x ∷ xs) (inl e) = inl (ap f e)
map-mem f a (x ∷ xs) (inr m) = inr (map-mem f a xs m)

-- The connection index lists every connection twice: as outgoing in the section of its source, and as a
-- backlink in the section of its target.
pub connection_lines_full :
    (g : Graph) (c : Connection) (source target : Entity)
    → Mem c g.connections
    → source.entity_id ≡ c.source_id
    → target.entity_id ≡ c.target_id
    → Mem (outgoing_line c) (connection_lines g source)
      × Mem (backlink_line c) (connection_lines g target)
unfolding connection_lines
connection_lines_full g c source target m s t =
    let at_source : Mem c (group_at source.entity_id (outgoing g)) =
      rw (group_at-outgoing g source.entity_id).0 (
        filter-mem (λ x. x.source_id == source.entity_id) c g.connections m
          (rw s (beq_self c.source_id))) in
    let at_target : Mem c (group_at target.entity_id (incoming g)) =
      rw (group_at-outgoing g target.entity_id).1 (
        filter-mem (λ x. x.target_id == target.entity_id) c g.connections m
          (rw t (beq_self c.target_id))) in
    (
      Mem-append_left (outgoing_line c) _ _
          (map-mem outgoing_line c _ ((mem-sort by_target c _).1 at_source)),
      Mem-append_right (backlink_line c) _ _
          (map-mem backlink_line c _ ((mem-sort by_source c _).1 at_target)),
    )
