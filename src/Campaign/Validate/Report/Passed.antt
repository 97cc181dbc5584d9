-- ===== src/Campaign/Validate/Report/Passed.antt =====
-- What a campaign that passes `validate` has.
use warden_drydock.Prelude.{
  ℕ, String, ◌≡◌, refl, sym, ◌∙◌, ap, Bool, List, [], ◌∷◌, ◌++◌, Option, none, some,
}
use warden_drydock.Prelude.Dict.{Dict}
use warden_drydock.Prelude.Result.{ok, bind-eq-ok}
use warden_drydock.Campaign.Json.{Json}
use warden_drydock.Campaign.Graph.{Graph, GraphError, graph}
use warden_drydock.Campaign.Rules.{
  Root, graph_or_exit, or_exit, adapter_config, config_errors, config_object, connection_rules,
  fatal_connection_errors,
}
use warden_drydock.Campaign.Validate.Metadata.{check_manifest, check_lock, read_json}
use warden_drydock.Campaign.Validate.Settings.{
  Problem, settings, settings_of, messages, graph_problems, all_errors,
}
use warden_drydock.Campaign.Validate.Report.{Report, status, Campaign, report, validate_campaign}

status-zero : (r : Report) → status r ≡ 0 → r.errors ≡ []
unfolding status
status-zero r h = nil_of_status r.errors h
  where
    nil_of_status : (es : List Problem) → elim es as (λ _. ℕ) [ [] ↦ 0 | _ ∷ _ ↦ 1 ] ≡ 0 → es ≡ []
    nil_of_status [] e = refl
    nil_of_status (p ∷ es) e = absurd (cc)

append_nil_parts : {A : Type 0} (xs ys : List A) → xs ++ ys ≡ [] → (xs ≡ []) × (ys ≡ [])
append_nil_parts [] ys e = (refl, e)
append_nil_parts (x ∷ xs) ys e = absurd (cc)

graph_problems_nil : (es : List GraphError) → graph_problems es ≡ [] → es ≡ []
unfolding graph_problems
graph_problems_nil [] h = refl
graph_problems_nil (e ∷ es) h = absurd (cc)

all_errors_nil :
    (a : List GraphError) (b : List String) (c : List GraphError) (d : List String)
    → all_errors a b c d ≡ []
    → (a ≡ []) × (c ≡ [])
unfolding all_errors
all_errors_nil a b c d h =
    let (front, _) =
      append_nil_parts (graph_problems a ++ messages b ++ graph_problems c) (messages d) h in
    let (start, last) =
      append_nil_parts (graph_problems a ++ messages b) (graph_problems c) front in
    (
      graph_problems_nil a (append_nil_parts (graph_problems a) (messages b) start).0,
      graph_problems_nil c last,
    )

three_nil : {A : Type 0} (a b c : List A) → a ≡ [] → b ≡ [] → c ≡ [] → a ++ b ++ c ≡ []
three_nil a b c p q r = rw (p, q, r) refl

parts_nil :
    (equal : Option Json → Option Json → Bool) (manifest lock : Dict String Json) (j : Json)
    (g : Graph)
    → (settings_of equal manifest lock j).errors ≡ []
    → fatal_connection_errors g.entities (settings_of equal manifest lock j).states g.connections
      ≡ []
    → config_errors (some j) g ≡ []
unfolding settings_of config_errors
parts_nil equal manifest lock j g h f =
    let (clean, ruled) =
      all_errors_nil (config_object j).1 _ (connection_rules (config_object j).0).2 _ h in
    three_nil (config_object j).1 (connection_rules (config_object j).0).2 _ clean ruled f

-- The settings of a configuration that gives no error come from an object, and its rules for
-- connections give no error either.
settings_nil :
    (equal : Option Json → Option Json → Bool) (manifest lock : Dict String Json)
    (found : Option Json) (g : Graph)
    → (settings equal manifest lock found).errors ≡ []
    → fatal_connection_errors g.entities (settings equal manifest lock found).states g.connections
      ≡ []
    → config_errors found g ≡ []
unfolding settings config_errors
settings_nil equal manifest lock none g h f = absurd (cc)
settings_nil equal manifest lock (some j) g h f = parts_nil equal manifest lock j g h f

or_exit_nil :
    (g : Graph) (es fs : List GraphError) → es ≡ [] → fs ≡ [] → or_exit g (es ++ fs) ≡ ok g
unfolding or_exit
or_exit_nil g es fs p q = rw (p, q) refl

module _ (equal : Option Json → Option Json → Bool) (str : Json → String)
    (repr casefold lower : String → String) (loads : String → Option Json) where
  report_nil :
      (names : List String) (manifest lock : Dict String Json) (root : Root)
      → (report equal str repr casefold lower loads names
          (settings equal manifest lock (adapter_config loads root.adapter))
          root).errors
        ≡ []
      → graph_or_exit casefold loads root ≡ ok (graph casefold loads root.files)
  unfolding report graph_or_exit
  report_nil names manifest lock root h =
      let g = graph casefold loads root.files in
      let set = settings equal manifest lock (adapter_config loads root.adapter) in
      let fatal = fatal_connection_errors g.entities set.states g.connections in
      let (front, last) = append_nil_parts _ (graph_problems fatal) h in
      let (middle, own) = append_nil_parts _ (graph_problems g.errors) front in
      let (start, _) = append_nil_parts (messages names ++ set.errors) _ middle in
      let (_, settled) = append_nil_parts (messages names) set.errors start in
      let config =
        settings_nil equal manifest lock (adapter_config loads root.adapter) g settled
          (graph_problems_nil fatal last) in
      or_exit_nil g g.errors (config_errors (adapter_config loads root.adapter) g)
        (graph_problems_nil g.errors own) config

  -- A campaign for which `validate` exits with 0 has a graph that every other command accepts.
  pub validate_campaign-accepts :
      (c : Campaign) (r : Report)
      → validate_campaign equal str repr casefold lower loads c ≡ ok r
      → status r ≡ 0
      → graph_or_exit casefold loads c.root ≡ ok (graph casefold loads c.root.files)
  unfolding validate_campaign
  validate_campaign-accepts c r h passed =
      let (m, e1, h1) = bind-eq-ok (check_manifest (read_json loads c.manifest)) _ _ h in
      let (l, e2, h2) = bind-eq-ok (check_lock repr (read_json loads c.lock)) _ _ h1 in
      let same : r
          ≡ report equal str repr casefold lower loads (m.1 ++ l.1)
              (settings equal m.0 l.0 (adapter_config loads c.root.adapter)) c.root =
        cc (h2) in
      report_nil (m.1 ++ l.1) m.0 l.0 c.root (sym (ap (λ x. x.errors) same) ∙ status-zero r passed)
