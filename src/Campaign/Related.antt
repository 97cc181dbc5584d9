-- ===== src/Campaign/Related.antt =====
-- standalone.py: `related_entities`, the neighbourhood of an entity.
pub mod Within
pub mod Listed
use warden_drydock.Prelude.{
  ℕ, zero, suc, String, ◌≡◌, refl, Bool, true, false, List, [], ◌∷◌, ◌++◌, ◌&&◌, ◌||◌, not, Option,
  none, some, if◌then◌else◌, ◌==◌, string_eq, contains, filter, any,
}
use warden_drydock.Prelude.Dict.{Dict, lookup}
use warden_drydock.Prelude.Sets.{dedup}
use warden_drydock.Prelude.Sort.{sort}
use warden_drydock.Prelude.Text.{str_leb}
use warden_drydock.Prelude.Result.{Result, ok, err, ◌>>=◌}
use warden_drydock.Campaign.Json.{Json}
use warden_drydock.Campaign.Connections.{Connection}
use warden_drydock.Campaign.Graph.{Entity, Graph, GraphError}
use warden_drydock.Campaign.Rules.{Root, graph_or_exit}

abbrev pub is_known : Graph → String → Bool
is_known g key = elim (lookup key g.entities) [ none ↦ false | some _ ↦ true ]

-- `{edge.target_id for edge in connections if edge.source_id in frontier}`
unfoldable pub targets_of : List Connection → List String → List String
targets_of [] frontier = []
targets_of (c ∷ cs) frontier =
    let rest = targets_of cs frontier in
    if contains c.source_id frontier then c.target_id ∷ rest else rest

-- `{edge.source_id for edge in connections if edge.target_id in frontier}`
unfoldable pub sources_of : List Connection → List String → List String
sources_of [] frontier = []
sources_of (c ∷ cs) frontier =
    let rest = sources_of cs frontier in
    if contains c.target_id frontier then c.source_id ∷ rest else rest

-- The neighbours that are entities and have not been selected before.
unfoldable pub next_frontier : Graph → List String → List String → List String
unfolding targets_of sources_of
next_frontier g frontier selected = dedup (
    filter (λ k. is_known g k && not (contains k selected))
      (targets_of g.connections frontier ++ sources_of g.connections frontier))

-- The rounds that are left, the frontier, and what has been selected.
unfoldable pub expand : Graph → ℕ → List String → List String → List String
unfolding next_frontier
expand g zero frontier selected = selected
expand g (suc n) frontier selected =
    let next = next_frontier g frontier selected in expand g n next (selected ++ next)

-- `[focus] + sorted(selected - {focus})`
unfoldable pub ordered_ids : Graph → String → ℕ → List String
unfolding expand
ordered_ids g focus depth =
    focus ∷ sort str_leb (filter (λ k. not (k == focus)) (expand g depth (focus ∷ []) (focus ∷ [])))

pub data Failure : Type 0 where
  negative_depth no_records unknown_entity key_error : Failure
  invalid_id bad_adapter unknown_type unsafe_path already_exists no_template : Failure
  duplicate_id : String → Failure
  refused : List GraphError → Failure

-- A number that the command line has read.
pub data ℤ : Type 0 where
  pos negsuc : ℕ → ℤ

found_entity : Option Entity → Result Failure (List Entity) → Result Failure (List Entity)
found_entity none rest = err key_error
found_entity (some e) rest = rest >>= λ es. ok (e ∷ es)

-- `[entities[key] for key in ordered]`
unfoldable pub entities_at : Graph → List String → Result Failure (List Entity)
unfolding found_entity
entities_at g [] = ok []
entities_at g (k ∷ ks) = found_entity (lookup k g.entities) (entities_at g ks)

unfoldable pub related_in : Graph → String → ℕ → Result Failure (List Entity)
unfolding entities_at ordered_ids
related_in g focus depth =
    if is_known g focus then entities_at g (ordered_ids g focus depth) else err unknown_entity

unfoldable pub or_refused : Result (List GraphError) Graph → Result Failure Graph
or_refused (ok g) = ok g
or_refused (err es) = err (refused es)

unfoldable pub related_entities :
    (String → String) → (String → Option Json) → Root → String → ℤ → Result Failure (List Entity)
unfolding graph_or_exit or_refused related_in
related_entities casefold loads root focus (negsuc n) = err negative_depth
related_entities casefold loads root focus (pos depth) =
    or_refused (graph_or_exit casefold loads root) >>= λ g. related_in g focus depth
