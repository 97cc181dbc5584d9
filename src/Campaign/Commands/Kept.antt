-- ===== src/Campaign/Commands/Kept.antt =====
-- Which files the commands leave as they were.
use package.text.Mathlib.TextEquality.{eq_iff}
use warden_drydock.Prelude.{
  zero, suc, ◌||◌, String, ◌≡◌, refl, ◌∙◌, ap, Bool, false, List, [], ◌∷◌, ◌++◌, Option, some, inl,
  inr, ◌==◌, string_eq, Bool-cases, arith,
}
use warden_drydock.Prelude.Result.{Result, ok, bind-eq-ok}
use warden_drydock.Campaign.Json.{Json}
use warden_drydock.Campaign.Graph.{File, as_posix}
use warden_drydock.Campaign.Rules.{Root, graph_or_exit}
use warden_drydock.Campaign.Related.{Failure, or_refused, ℤ, pos, negsuc}
use warden_drydock.Campaign.Indexes.{
  write_file, build_indexes, entity_index, connection_index, entity_index_path,
  connection_index_path,
}
use warden_drydock.Campaign.Context.{
  build_context, context_within, context_path, context_text, file_at, focused_entities,
}
use warden_drydock.Campaign.Create.{create_entity}
use warden_drydock.Campaign.Create.Fresh.{create_entity-IsFresh}
use warden_drydock.Campaign.Commands.{
  Command, context, index, find, show, related, backlinks, history, connections, new, run,
  run_context, reading, nonnegative_int, positive_int, checked,
}

file_at-write_file :
    (p q : List String) (content : String) (fs : List File)
    → (as_posix q == as_posix p) ≡ false
    → file_at p (write_file q content fs) ≡ file_at p fs
unfolding file_at write_file
file_at-write_file p q content [] h = ground (arith, h)
file_at-write_file p q content (f ∷ fs) h = elim (Bool-cases (as_posix f.parts == as_posix q)) [
  | inl same ↦
      let other : (as_posix f.parts == as_posix p) ≡ false =
        ap (λ s. s == as_posix p) ((eq_iff (as_posix f.parts) (as_posix q)).0 same) ∙ h in
      rw (same, other) (ground (arith, h))
  | inr apart ↦ rw apart (elim (Bool-cases (as_posix f.parts == as_posix p)) [
    | inl found ↦ ground (arith, found)
    | inr missed ↦ rw (file_at, missed) (file_at-write_file p q content fs h)
  ])
]

file_at-append :
    (p : List String) (fs gs : List File) (f : File)
    → file_at p fs ≡ some f
    → file_at p (fs ++ gs) ≡ some f
unfolding file_at
file_at-append p [] gs f h = absurd (cc)
file_at-append p (g ∷ fs) gs f h = ground (arith, h, file_at-append p fs gs f)

-- The files that the commands write themselves.
unfoldable pub is_generated : List String → Bool
is_generated p =
    as_posix entity_index_path == as_posix p
    || as_posix connection_index_path == as_posix p
    || as_posix context_path == as_posix p

module _ (p : List String) (own : is_generated p ≡ false) (f : File) where
  -- The file is still there with the text that it had.
  abbrev Kept : Root → Root → Type 0
  Kept root after = file_at p root.files ≡ some f → file_at p after.files ≡ some f

  write_file-Kept :
      (q : List String) (content : String) (root after : Root)
      → (as_posix q == as_posix p) ≡ false
      → after.files ≡ write_file q content root.files
      → Kept root after
  write_file-Kept q content root after other e h =
      ap (file_at p) e ∙ file_at-write_file p q content root.files other ∙ h

  build_indexes-Kept :
      (casefold title : String → String) (loads : String → Option Json) (root after : Root)
      → build_indexes casefold title loads root ≡ ok after
      → Kept root after
  unfolding build_indexes is_generated
  build_indexes-Kept casefold title loads root after made h =
      let (g, e1, e2) = bind-eq-ok (or_refused (graph_or_exit casefold loads root)) _ _ made in
      let middle : Root = record root {
        files = write_file entity_index_path (entity_index casefold title g) root.files;
      } in
      let last : Root = record root {
        files = write_file connection_index_path (connection_index g) middle.files;
      } in
      let at : after ≡ last = cc (e2) in
      write_file-Kept connection_index_path (connection_index g) middle after (ground (arith, own))
        (ap (λ r. r.files) at)
        (write_file-Kept entity_index_path (entity_index casefold title g) root middle
          (ground (arith, own)) refl h)

  build_context-Kept :
      (casefold title : String → String) (loads : String → Option Json) (root after : Root)
      (focus : String) (depth max_records : ℤ)
      → build_context casefold title loads root focus depth max_records ≡ ok after
      → Kept root after
  unfolding build_context context_within is_generated
  build_context-Kept casefold title loads root after focus (negsuc n) m made h = absurd (cc)
  build_context-Kept casefold title loads root after focus (pos n) (negsuc m) made h = absurd (cc)
  build_context-Kept casefold title loads root after focus (pos n) (pos zero) made h = absurd (cc)
  build_context-Kept casefold title loads root after focus (pos n) (pos (suc m)) made h =
      let (es, e1, e2) = bind-eq-ok (focused_entities casefold loads root focus n) _ _ made in
      let text = context_text title loads root focus n (suc m) es in
      let last : Root = record root { files = write_file context_path text root.files } in
      let at : after ≡ last = cc (e2) in
      write_file-Kept context_path text root after (ground (arith, own)) (ap (λ r. r.files) at) h

  reading-Kept :
      (root after : Root) (printed : Result Failure (List String)) (out : List String)
      → reading root printed ≡ ok (out, after)
      → Kept root after
  unfolding reading
  reading-Kept root after printed out made h =
      let (lines, e1, e2) = bind-eq-ok printed _ _ made in
      let at : after ≡ root = cc (e2) in ap (λ r. file_at p r.files) at ∙ h

  module _ (casefold title : String → String) (str : Json → String) (loads : String → Option Json)
      (resolve : String → Option (List String)) (occupied : List String → Bool)
      (format_id : String → String → Option String) (dumps : String → String) where
    run_context-Kept :
        (root after : Root) (focus : String) (depth max_records : ℤ) (out : List String)
        → run_context casefold title str loads resolve occupied format_id dumps root focus depth
            max_records
          ≡ ok (out, after)
        → Kept root after
    unfolding run_context
    run_context-Kept root after focus depth max_records out made h =
        let (n, e1, h1) = bind-eq-ok (nonnegative_int depth) _ _ made in
        let (m, e2, h2) = bind-eq-ok (positive_int max_records) _ _ h1 in
        let (es, e3, h3) =
          bind-eq-ok
            (checked casefold title str loads resolve occupied format_id dumps root focus n) _ _
            h2 in
        let (indexed, e4, h4) = bind-eq-ok (build_indexes casefold title loads root) _ _ h3 in
        let (done, e5, h5) =
          bind-eq-ok (build_context casefold title loads indexed focus (pos n) (pos m)) _ _ h4 in
        let at : after ≡ done = cc (h5) in
        ap (λ r. file_at p r.files) at
        ∙ build_context-Kept casefold title loads indexed done focus (pos n) (pos m) e5
            (build_indexes-Kept casefold title loads root indexed e4 h)

    -- A command that succeeds leaves every file there with the text that it had, but for the three files
    -- that the commands generate.
    pub run-Kept :
        (command : Command) (root after : Root) (out : List String)
        → run casefold title str loads resolve occupied format_id dumps command root
          ≡ ok (out, after)
        → file_at p root.files ≡ some f
        → file_at p after.files ≡ some f
    unfolding run
    run-Kept (context focus depth m) root after out made h =
        run_context-Kept root after focus depth m out made h
    run-Kept index root after out made h =
        let (r, e1, e2) = bind-eq-ok (build_indexes casefold title loads root) _ _ made in
        let at : after ≡ r = cc (e2) in
        ap (λ r. file_at p r.files) at ∙ build_indexes-Kept casefold title loads root r e1 h
    run-Kept (find query) root after out made h = reading-Kept root after _ out made h
    run-Kept (show id) root after out made h = reading-Kept root after _ out made h
    run-Kept (backlinks focus) root after out made h = reading-Kept root after _ out made h
    run-Kept (history focus) root after out made h = reading-Kept root after _ out made h
    run-Kept (related focus depth) root after out made h =
        let (n, e1, e2) = bind-eq-ok (nonnegative_int depth) _ _ made in
        reading-Kept root after _ out e2 h
    run-Kept connections root after out made h = reading-Kept root after _ out made h
    run-Kept (new kind id name) root after out made h =
        let (made_, e1, e2) =
          bind-eq-ok (create_entity loads resolve occupied format_id dumps root kind id name) _ _
            made in
        let at : after ≡ made_.1 = cc (e2) in
        let fresh =
          (create_entity-IsFresh loads resolve occupied format_id dumps root made_.1 kind id name
            made_.0 e1).1 in
        ap (λ r. file_at p r.files) at
        ∙ ap (file_at p) fresh.added
        ∙ file_at-append p root.files _ f h
