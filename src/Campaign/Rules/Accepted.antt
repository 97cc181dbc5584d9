-- ===== src/Campaign/Rules/Accepted.antt =====
-- What holds of a graph that `_graph_or_exit` has returned.
use warden_drydock.Prelude.{
  String, ◌≡◌, refl, Bool, true, false, List, [], ◌∷◌, ◌++◌, ◌↔◌, Option, none, some, string_eq,
  contains, if◌then◌else◌, All,
}
use warden_drydock.Prelude.Dict.{Dict, lookup}
use warden_drydock.Prelude.Result.{ok}
use warden_drydock.Campaign.Json.{Json}
use warden_drydock.Campaign.Connections.{Connection}
use warden_drydock.Campaign.Graph.{Entity, Graph, GraphError, graph}
use warden_drydock.Campaign.Graph.Collected.{IsKeyed, collect_entities-IsKeyed}
use warden_drydock.Campaign.Rules.{
  Root, adapter_config, config_errors, config_object, connection_rules, fatal_connection_errors,
  target_errors, leaks, or_exit, graph_or_exit,
}

or_exit-eq-ok : (g h : Graph) (es : List GraphError) → or_exit g es ≡ ok h → (h ≡ g) × (es ≡ [])
unfolding or_exit
or_exit-eq-ok g h [] e = (cc, refl)
or_exit-eq-ok g h (x ∷ es) e = absurd (cc)

nil_of_append : {A : Type 0} (xs ys : List A) → xs ++ ys ≡ [] → (xs ≡ []) × (ys ≡ [])
nil_of_append [] ys e = (refl, e)
nil_of_append (x ∷ xs) ys e = absurd (cc)

last_of_append : {A : Type 0} (xs ys zs : List A) → xs ++ ys ++ zs ≡ [] → zs ≡ []
last_of_append xs ys zs e = (nil_of_append (xs ++ ys) zs e).1

module _ (casefold : String → String) (loads : String → Option Json) (root : Root) where
  pub graph_or_exit-eq-ok :
      (g : Graph)
      → graph_or_exit casefold loads root ≡ ok g
      → (g ≡ graph casefold loads root.files)
        × (g.errors ≡ [])
        × (config_errors (adapter_config loads root.adapter) g ≡ [])
  unfolding graph_or_exit
  graph_or_exit-eq-ok g h =
      let made = graph casefold loads root.files in
      let (same, empty) =
        or_exit-eq-ok made g (made.errors ++ config_errors (adapter_config loads root.adapter) made)
          h in
      let (first, second) =
        nil_of_append made.errors (config_errors (adapter_config loads root.adapter) made) empty in
      (same, rw same first, rw same second)

  pub graph_or_exit-IsKeyed :
      (g : Graph) → graph_or_exit casefold loads root ≡ ok g → IsKeyed g.entities
  unfolding graph
  graph_or_exit-IsKeyed g h =
      rw ((graph_or_exit-eq-ok g h).0) (collect_entities-IsKeyed loads root.files)

-- The states that the configuration allows.
unfoldable pub states_of : Json → List String
unfolding config_object connection_rules
states_of j = (connection_rules (config_object j).0).0

-- What the code promises of one connection: its target is an entity, its state is allowed, and it does
-- not show the players an entity that only the warden may see.
pub record IsSound (entities : Dict String Entity) (states : List String) (c : Connection)
    : Type 0 where
  pub target : Entity
  pub found : lookup c.target_id entities ≡ some target
  pub state_allowed : contains c.state states ≡ true
  pub no_leak : leaks (lookup c.source_id entities) target ≡ false

-- The parts of a sum of errors that is empty.
empty_ifs :
    {A : Type 0} (p q : Bool) (x y : A)
    → ((if p then [] else x ∷ []) ++ (if q then y ∷ [] else []) ≡ []) ↔ ((p ≡ true) × (q ≡ false))
empty_ifs true true x y = ((λ h. absurd (cc)), (λ h. absurd (cc)))
empty_ifs true false x y = ((λ h. (refl, refl)), (λ h. refl))
empty_ifs false q x y = ((λ h. absurd (cc)), (λ h. absurd (cc)))

target_errors-IsSound :
    (states : List String) (c : Connection) (entities : Dict String Entity) (found : Option Entity)
    → lookup c.target_id entities ≡ found
    → target_errors states c (lookup c.source_id entities) found ≡ []
    → IsSound entities states c
unfolding target_errors
target_errors-IsSound states c entities none e h = absurd (cc)
target_errors-IsSound states c entities (some t) e h =
    let (allowed, hidden) =
      (empty_ifs (contains c.state states) (leaks (lookup c.source_id entities) t) _ _).0 h in
    record { target = t; found = e; state_allowed = allowed; no_leak = hidden }

IsSound-target_errors :
    (states : List String) (c : Connection) (entities : Dict String Entity)
    → IsSound entities states c
    → target_errors states c (lookup c.source_id entities) (lookup c.target_id entities) ≡ []
unfolding target_errors
IsSound-target_errors states c entities s = rw s.found (
    (empty_ifs (contains c.state states) (leaks (lookup c.source_id entities) s.target) _ _).1
      (s.state_allowed, s.no_leak))

-- The check of the connections reports nothing exactly when every connection leads to an entity, has an
-- allowed state, and does not show the players an entity that only the warden may see.
fatal_connection_errors-IsSound :
    (entities : Dict String Entity) (states : List String) (cs : List Connection)
    → (fatal_connection_errors entities states cs ≡ []) ↔ All (IsSound entities states) cs
unfolding fatal_connection_errors
fatal_connection_errors-IsSound entities states [] = ((λ h. tt), (λ h. refl))
fatal_connection_errors-IsSound entities states (c ∷ cs) =
    let (to, from) = fatal_connection_errors-IsSound entities states cs in
    let now = target_errors states c (lookup c.source_id entities) (lookup c.target_id entities) in
    (
      (λ h.
          let (first, rest) = nil_of_append now (fatal_connection_errors entities states cs) h in
          (
            target_errors-IsSound states c entities (lookup c.target_id entities) refl first,
            to rest,
          )),
      (λ h. rw (IsSound-target_errors states c entities h.0, from h.1) refl),
    )

module _ (casefold : String → String) (loads : String → Option Json) (root : Root) where
  config_errors_nil :
      (found : Option Json) (g : Graph)
      → config_errors found g ≡ []
      → (j : Json) × (found ≡ some j)
        × (fatal_connection_errors g.entities (states_of j) g.connections ≡ [])
  unfolding config_errors states_of
  config_errors_nil none g h = absurd (cc)
  config_errors_nil (some j) g h =
      (j, refl, last_of_append (config_object j).1 (connection_rules (config_object j).0).2 _ h)

  -- A graph that is accepted comes from a readable configuration and from files that collect and parse
  -- without an error, and each of its connections leads to an entity, has a state that the configuration
  -- allows, and does not show the players an entity that only the warden may see.
  pub graph_or_exit-IsSound :
      (g : Graph)
      → graph_or_exit casefold loads root ≡ ok g
      → (j : Json) × (adapter_config loads root.adapter ≡ some j)
        × (g.errors ≡ [])
        × All (IsSound g.entities (states_of j)) g.connections
  graph_or_exit-IsSound g h =
      let (_, clean, passed) = graph_or_exit-eq-ok casefold loads root g h in
      let (j, found, none_fatal) = config_errors_nil (adapter_config loads root.adapter) g passed in
      (
        j,
        found,
        clean,
        (fatal_connection_errors-IsSound g.entities (states_of j) g.connections).0 none_fatal,
      )
