-- ===== src/Campaign/Create/Fresh.antt =====
-- What a new record leaves as it was.
use warden_drydock.Prelude.{
  String, ◌≡◌, refl, sym, ◌∙◌, ap, Bool, true, false, List, [], ◌∷◌, ◌++◌, ◌||◌, not, Option, none,
  inl, inr, any, arith, Option-cases, string_eq,
}
use warden_drydock.Prelude.Result.{ok, require, or_raise, bind-eq-ok, require-eq-ok}
use warden_drydock.Campaign.Text.{is_entity_id}
use warden_drydock.Campaign.Json.{Json}
use warden_drydock.Campaign.Graph.{File}
use warden_drydock.Campaign.Rules.{Root}
use warden_drydock.Campaign.Related.{invalid_id, already_exists, no_template, duplicate_id}
use warden_drydock.Campaign.Indexes.{write_file}
use warden_drydock.Campaign.Context.{read_text, file_at}
use warden_drydock.Campaign.Create.{
  create_entity, create_at, places, is_taken, declares_same, filled,
}

-- A file is written behind the others where none stands at its place.
write_file-append :
    (place : List String) (content : String) (fs : List File)
    → file_at place fs ≡ none
    → write_file place content fs ≡ fs ++ record { parts = place; content = content } ∷ []
unfolding write_file file_at
write_file-append place content [] h = refl
write_file-append place content (f ∷ fs) h = ground (arith, h, write_file-append place content fs)

module _ (loads : String → Option Json) (resolve : String → Option (List String))
    (occupied : List String → Bool) (format_id : String → String → Option String)
    (dumps : String → String) where
  free_of_taken :
      (place : List String) (files : List File)
      → is_taken loads resolve occupied format_id dumps place files ≡ false
      → (occupied place ≡ false) × (file_at place files ≡ none)
  unfolding is_taken
  free_of_taken place files h = elim (Option-cases (file_at place files)) [
    | inl free ↦ (ground (arith, h), free)
    | inr (f, found) ↦
        let taken : (occupied place || true) ≡ false = rw found at h in
        absurd (ground (arith, taken))
  ]

  -- What holds of a record that has been created.
  pub record IsFresh (root after : Root) (id : String) (place : List String) : Type 0 where
    pub free : (occupied place ≡ false) × (file_at place root.files ≡ none)
    pub undeclared : any (declares_same loads id) root.files ≡ false
    pub content : String
    pub added : after.files ≡ root.files ++ record { parts = place; content = content } ∷ []
    pub same_adapter : after.adapter ≡ root.adapter

  create_at-IsFresh :
      (root after : Root) (id : String) (name : Option String) (template to place : List String)
      → create_at loads resolve occupied format_id dumps root id name (template, to)
        ≡ ok (place, after)
      → IsFresh root after id place
  unfolding create_at
  create_at-IsFresh root after id name template to place h =
      let (_, e1, h1) =
        bind-eq-ok
          (require (not (is_taken loads resolve occupied format_id dumps to root.files))
            already_exists)
          _ _ h in
      let (_, e2, h2) =
        bind-eq-ok (require (not (any (declares_same loads id) root.files)) (duplicate_id id)) _ _
          h1 in
      let (source, e3, h3) =
        bind-eq-ok (or_raise (file_at template root.files) no_template) _ _ h2 in
      let free = free_of_taken to root.files (ground (arith, require-eq-ok _ _ e1)) in
      let made : File = record { parts = to; content = filled dumps id name (read_text source) } in
      let at : to ≡ place = cc (h3) in
      let grown : after ≡ record root { files = write_file to made.content root.files } = cc (h3) in
      record {
        free = rw (sym at) free;
        undeclared = ground (arith, require-eq-ok _ _ e2);
        content = made.content;
        added =
            ap (λ r. r.files) grown
            ∙ write_file-append to made.content root.files free.1
            ∙ ap (λ q. root.files ++ record { parts = q; content = made.content } ∷ []) at;
        same_adapter = ap (λ r. r.adapter) grown;
      }

  -- A record is only created for a valid ID that no Markdown file declares, where nothing stood, and
  -- every file of the campaign is left as it was. (Nothing is said of the text of the new file.)
  pub create_entity-IsFresh :
      (root after : Root) (kind id : String) (name : Option String) (place : List String)
      → create_entity loads resolve occupied format_id dumps root kind id name ≡ ok (place, after)
      → (is_entity_id id ≡ true) × IsFresh root after id place
  unfolding create_entity
  create_entity-IsFresh root after kind id name place h =
      let (_, e1, h1) = bind-eq-ok (require (is_entity_id id) invalid_id) _ _ h in
      let (found, e2, h2) =
        bind-eq-ok (places loads resolve occupied format_id dumps root kind id) _ _ h1 in
      (
        require-eq-ok (is_entity_id id) _ e1,
        create_at-IsFresh root after id name found.0 found.1 place h2,
      )
