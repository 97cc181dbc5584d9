-- ===== src/Campaign/Graph/Collected.antt =====
-- What the collection of entities has found: each entity stands under its own ID, and every file that
-- declares an ID is an entity or is reported.
use mathlib.Core.Path.{subst}
use text.Mathlib.TextEquality.{eq_iff}
use warden_drydock.Prelude.{
  ◌++◌, String, ◌≡◌, refl, sym, ◌∙◌, ap, List, [], ◌∷◌, Option, none, some, if◌then◌else◌, ◌==◌,
  string_eq, append_nil, append_assoc, Bool-cases, Option-cases, inl, inr,
}
use warden_drydock.Prelude.Dict.{Dict, lookup, insert, lookup-insert}
use warden_drydock.Prelude.Sort.{sort}
use warden_drydock.Campaign.Text.{is_empty}
use warden_drydock.Campaign.Json.{Json}
use warden_drydock.Campaign.Frontmatter.{frontmatter, text_field}
use warden_drydock.Campaign.Graph.{
  File, Entity, GraphError, entity_of, Collected, duplicate_entity, add_or_report, add_entity,
  is_ignored, collect_file, collect_files, collect_entities, file_leb,
}

-- Each entity stands under its own ID.
abbrev pub IsKeyed : Dict String Entity → Type 0
IsKeyed d = (k : String) (e : Entity) → lookup k d ≡ some e → e.entity_id ≡ k

IsKeyed-insert :
    (id : String) (e : Entity) (d : Dict String Entity)
    → e.entity_id ≡ id
    → IsKeyed d
    → IsKeyed (insert id e d)
IsKeyed-insert id e d own h k f found = elim (Bool-cases (id == k)) [
  | inl same ↦
      let here : some e ≡ some f = rw (lookup-insert id k e d, same) at found in
      let at : id ≡ k = (eq_iff id k).0 same in
      let both : e ≡ f = cc in sym (ap (λ x. x.entity_id) both) ∙ own ∙ at
  | inr other ↦ h k f (rw (lookup-insert id k e d, other) at found)
]

IsKeyed-add :
    (found : Option Entity) (id : String) (e : Entity) (c : Collected)
    → e.entity_id ≡ id
    → IsKeyed c.0
    → IsKeyed (add_or_report id e found c).0
unfolding add_or_report
IsKeyed-add none id e c own h = IsKeyed-insert id e c.0 own h
IsKeyed-add (some first) id e c own h = h

IsKeyed-add_entity :
    (id : Option String) (m : Dict String Json) (f : File) (c : Collected)
    → IsKeyed c.0
    → IsKeyed (add_entity id m f c).0
unfolding add_entity entity_of
IsKeyed-add_entity none m f c h = h
IsKeyed-add_entity (some id) m f c h = elim (Bool-cases (is_empty id)) [
  | inl e ↦ rw e h
  | inr e ↦ rw e (IsKeyed-add (lookup id c.0) id (entity_of id m f) c refl h)
]

module _ (loads : String → Option Json) where
  IsKeyed-collect_files :
      (fs : List File) (c : Collected) → IsKeyed c.0 → IsKeyed (collect_files loads fs c).0
  unfolding collect_files collect_file
  IsKeyed-collect_files [] c h = h
  IsKeyed-collect_files (f ∷ fs) c h =
      IsKeyed-collect_files fs (collect_file loads f c) (elim (Bool-cases (is_ignored f)) [
        | inl e ↦ rw e h
        | inr e ↦ rw e (
            IsKeyed-add_entity (text_field "id" (frontmatter loads f.content))
              (frontmatter loads f.content) f c h)
      ])

  pub collect_entities-IsKeyed : (files : List File) → IsKeyed (collect_entities loads files).0
  unfolding collect_entities lookup
  collect_entities-IsKeyed files =
      IsKeyed-collect_files (sort file_leb files) ([], []) (λ k e h. absurd (cc))

module _ (loads : String → Option Json) where
  entity_of_id : Option String → Dict String Json → File → Option Entity
  unfolding entity_of
  entity_of_id none metadata f = none
  entity_of_id (some id) metadata f = if is_empty id then none else some (entity_of id metadata f)

  -- The entity that a file declares, if it is not ignored and has an ID.
  entity_in : File → Option Entity
  unfolding entity_of_id
  entity_in f =
      let metadata = frontmatter loads f.content in
      if is_ignored f then none else entity_of_id (text_field "id" metadata) metadata f

  or_rest : Option Entity → List Entity → List Entity
  or_rest none es = es
  or_rest (some e) es = e ∷ es

  -- What the files declare, one after the other.
  unfoldable pub declared : List File → List Entity
  unfolding entity_in or_rest
  declared [] = []
  declared (f ∷ fs) = or_rest (entity_in f) (declared fs)

-- The first of the entities that has the ID.
unfoldable pub first_with : String → List Entity → Option Entity
first_with k [] = none
first_with k (e ∷ es) = let rest = first_with k es in if e.entity_id == k then some e else rest

duplicate_of : Option Entity → Entity → List GraphError
duplicate_of none e = []
duplicate_of (some first) e = duplicate_entity e.entity_id first.path e.path ∷ []

-- One report for each entity that has the ID of an earlier one, which names the first that has it.
unfoldable pub reported : List Entity → List Entity → List GraphError
unfolding duplicate_of
reported before [] = []
reported before (e ∷ es) =
    duplicate_of (first_with e.entity_id before) e ++ reported (before ++ e ∷ []) es

add_declared : Entity → Collected → Collected
unfolding add_or_report
add_declared e c = add_or_report e.entity_id e (lookup e.entity_id c.0) c

add_all : List Entity → Collected → Collected
unfolding add_declared
add_all [] c = c
add_all (e ∷ es) c = add_all es (add_declared e c)

module _ (loads : String → Option Json) where
  collect_file-declared :
      (f : File) (c : Collected) (es : List Entity)
      → add_all es (collect_file loads f c) ≡ add_all (or_rest loads (entity_in loads f) es) c
  unfolding collect_file entity_in or_rest add_all add_declared add_entity entity_of_id entity_of
  collect_file-declared f c es = elim (Bool-cases (is_ignored f)) [
    | inl e ↦ rw e refl
    | inr e ↦
        let metadata = frontmatter loads f.content in
        rw e (of_id (text_field "id" metadata) metadata)
  ]
    where
      of_id :
          (id : Option String) (m : Dict String Json)
          → add_all es (add_entity id m f c)
            ≡ add_all (or_rest loads (entity_of_id loads id m f) es) c
      of_id none m = refl
      of_id (some id) m = elim (Bool-cases (is_empty id)) [ inl e ↦ rw e refl | inr e ↦ rw e refl ]

  collect_files-declared :
      (fs : List File) (c : Collected) → collect_files loads fs c ≡ add_all (declared loads fs) c
  unfolding collect_files declared add_all
  collect_files-declared [] c = refl
  collect_files-declared (f ∷ fs) c =
      collect_files-declared fs (collect_file loads f c)
      ∙ collect_file-declared f c (declared loads fs)

first_with-found :
    (k : String) (es : List Entity) (e x : Entity)
    → first_with k es ≡ some x
    → first_with k (es ++ e ∷ []) ≡ some x
unfolding first_with
first_with-found k [] e x h = absurd (cc (h))
first_with-found k (d ∷ es) e x h = elim (Bool-cases (d.entity_id == k)) [
  | inl same ↦ rw same (rw same at h)
  | inr other ↦ rw other (first_with-found k es e x (rw other at h))
]

first_with-new :
    (k : String) (es : List Entity) (e : Entity)
    → first_with k es ≡ none
    → first_with k (es ++ e ∷ []) ≡ (if e.entity_id == k then some e else none)
unfolding first_with
first_with-new k [] e h = refl
first_with-new k (d ∷ es) e h = elim (Bool-cases (d.entity_id == k)) [
  | inl same ↦ absurd (cc (rw same at h))
  | inr other ↦ rw other (first_with-new k es e (rw other at h))
]

-- Under each ID stands the first of the entities so far that has it.
abbrev HasFirsts : List Entity → Collected → Type 0
HasFirsts before c = (k : String) → lookup k c.0 ≡ first_with k before

add_declared-HasFirsts :
    (before : List Entity) (e : Entity) (c : Collected) (found : Option Entity)
    → HasFirsts before c
    → first_with e.entity_id before ≡ found
    → HasFirsts (before ++ e ∷ []) (add_or_report e.entity_id e found c)
      × ((add_or_report e.entity_id e found c).1 ≡ c.1 ++ duplicate_of found e)
unfolding add_or_report duplicate_of
add_declared-HasFirsts before e c none h is = (
  (λ k. lookup-insert e.entity_id k e c.0 ∙ elim (Bool-cases (e.entity_id == k)) [
    | inl same ↦
        let new : first_with k before ≡ none =
          ap (λ i. first_with i before) (sym ((eq_iff e.entity_id k).0 same)) ∙ is in
        rw same (sym (rw same at (first_with-new k before e new)))
    | inr other ↦ rw other (
        h k ∙ elim (Option-cases (first_with k before)) [
          | inl missing ↦ missing ∙ sym (first_with-new k before e missing ∙ rw other refl)
          | inr (x, there) ↦ there ∙ sym (first_with-found k before e x there)
        ])
  ]),
  sym (append_nil c.1),
)
add_declared-HasFirsts before e c (some first) h is = (
  (λ k. h k ∙ elim (Option-cases (first_with k before)) [
    | inl missing ↦
        missing
        ∙ sym (
            first_with-new k before e missing ∙ elim (Bool-cases (e.entity_id == k)) [
              | inl same ↦ absurd (
                  clash missing
                    (ap (λ i. first_with i before) (sym ((eq_iff e.entity_id k).0 same)) ∙ is))
              | inr other ↦ rw other refl
            ])
    | inr (x, there) ↦ there ∙ sym (first_with-found k before e x there)
  ]),
  refl,
)
  where
    clash : {o : Option Entity} → o ≡ none → o ≡ some first → ⊥
    clash m f = cc (m, f)

add_all-HasFirsts :
    (es before : List Entity) (c : Collected)
    → HasFirsts before c
    → HasFirsts (before ++ es) (add_all es c) × ((add_all es c).1 ≡ c.1 ++ reported before es)
unfolding add_all add_declared reported
add_all-HasFirsts [] before c h =
    ((λ k. h k ∙ ap (first_with k) (sym (append_nil before))), sym (append_nil c.1))
add_all-HasFirsts (e ∷ es) before c h =
    let found = first_with e.entity_id before in
    let d = add_or_report e.entity_id e found c in
    let (firsts, errors) = add_declared-HasFirsts before e c found h refl in
    let (all_firsts, all_errors) = add_all-HasFirsts es (before ++ e ∷ []) d firsts in
    subst
      (λ o.
        HasFirsts (before ++ e ∷ es) (add_all es (add_or_report e.entity_id e o c))
        × ((add_all es (add_or_report e.entity_id e o c)).1
            ≡ c.1 ++ (duplicate_of found e ++ reported (before ++ e ∷ []) es)))
      (sym (h e.entity_id))
      (
        (λ k. all_firsts k ∙ ap (first_with k) (append_assoc before (e ∷ []) es)),
        all_errors
            ∙ ap (λ r. r ++ reported (before ++ e ∷ []) es) errors
            ∙ append_assoc c.1 (duplicate_of found e) (reported (before ++ e ∷ []) es),
      )

-- The files that are not ignored and have an ID are taken in the order of their paths. Under each ID
-- stands the entity of the first file that declares it, or nothing where none does, and the errors are
-- one report for each later file, in the same order, with its path and that of the first.
pub collect_entities-firsts :
    (loads : String → Option Json) (files : List File)
    → let es = declared loads (sort file_leb files) in
      ((k : String) → lookup k (collect_entities loads files).0 ≡ first_with k es)
      × ((collect_entities loads files).1 ≡ reported [] es)
unfolding collect_entities lookup first_with
collect_entities-firsts loads files =
    rw (collect_files-declared loads (sort file_leb files) ([], []))
      (add_all-HasFirsts (declared loads (sort file_leb files)) [] ([], []) (λ k. refl))
