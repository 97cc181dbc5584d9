-- ===== src/Proposals/Editor/Lasting.antt =====
-- What stays of a version through the calls of the service and those of the editor.
use warden_drydock.Prelude.{
  ℕ, ◌+◌, String, ◌≡◌, refl, ◌∙◌, sym, ap, Bool, true, false, Option, none, some, List, inl, inr,
  Bool-cases, Option-cases, arith, nat_eq, string_eq, option_eq, pair_eq, pair_beq_iff, nat_beq_iff,
  ◌==◌, ◌||◌,
}
use mathlib.Core.Path.{subst}
use mathlib.Core.Option.{some-injective}
use warden_drydock.Prelude.Dict.{lookup, insert, lookup-insert}
use warden_drydock.Proposals.Models.{
  ProposalStatus, draft, conflict, ProposalVersion, EditorMetadata, Correction, absent, malformed,
  corrects, status_beq,
}
use warden_drydock.Proposals.Digests.{ChangeDigest}
use warden_drydock.Proposals.Repository.{Key, Repository, key_of, next_version, put, stamp}
use warden_drydock.Proposals.Machine.{IsKeyed, put-IsKeyed, Edits-IsKeyed, lookup-next_version}
use warden_drydock.Proposals.Service.{Callbacks}
use warden_drydock.Proposals.Service.Calls.{Calls, Calls-Edits}
use warden_drydock.Proposals.Frozen.{is_final, Calls-Remains}
use warden_drydock.Proposals.Editor.{
  advance, advance_editor, save_found, save_editor_metadata, add_item, can_correct, retired,
  add_over, add_correction, add_with, add_editor, editor_workflow_version,
}

-- The later version has all of the earlier one but its status, the revision that it is published as
-- and its editor metadata, and has its status too if that was final.
pub record Lasts (v w : ProposalVersion) : Type 0 where
  pub contents : w ≡ record v {
    status = w.status;
    published_revision_id = w.published_revision_id;
    editor_metadata = w.editor_metadata;
  }
  pub final : is_final v.status ≡ true → w.status ≡ v.status

Lasts-refl : (v : ProposalVersion) → Lasts v v
Lasts-refl v = record { contents = refl; final = λ f. refl }

Lasts-trans : (u v w : ProposalVersion) → Lasts u v → Lasts v w → Lasts u w
Lasts-trans u v w h k = record {
  contents =
      k.contents
      ∙ ap
          (λ (x : ProposalVersion). record x {
            status = w.status;
            published_revision_id = w.published_revision_id;
            editor_metadata = w.editor_metadata;
          })
          h.contents;
  final = λ f. k.final (subst (λ s. is_final s ≡ true) (sym (h.final f)) f) ∙ h.final f;
}

-- The key has the version, or what has become of it.
pub record Stays (k : Key) (v : ProposalVersion) (r : Repository) : Type 0 where
  pub now : ProposalVersion
  pub found : lookup k r.items ≡ some now
  pub lasts : Lasts v now

-- A step that keeps versions under their keys, and every version.
abbrev Keeps : Repository → Repository → Type 0
Keeps r q = IsKeyed q × ((k : Key) (v : ProposalVersion) → lookup k r.items ≡ some v → Stays k v q)

Keeps-refl : (r : Repository) → IsKeyed r → Keeps r r
Keeps-refl r h = (h, (λ k v e. record { now = v; found = e; lasts = Lasts-refl v }))

Keeps-trans : (p q r : Repository) → Keeps p q → Keeps q r → Keeps p r
Keeps-trans p q r h k = (
  k.0,
  (λ j v e.
      let first = h.1 j v e in
      let last = k.1 j first.now first.found in
      record {
        now = last.now;
        found = last.found;
        lasts = Lasts-trans v first.now last.now first.lasts last.lasts;
      }),
)

-- A version is put under its key, where nothing was or what lasts in it.
insert-Keeps :
    (j : Key) (x : ProposalVersion) (r q : Repository)
    → q.items ≡ insert j x r.items
    → key_of x ≡ j
    → IsKeyed r
    → ((v : ProposalVersion) → lookup j r.items ≡ some v → Lasts v x)
    → Keeps r q
unfolding put
insert-Keeps j x r q at own h lasts = (
  (λ k v e. put-IsKeyed j x r own h k v (ap (λ d. lookup k d) (sym at) ∙ e)),
  (λ k v e. elim (Bool-cases (j == k)) [
    | inl same ↦ record {
      now = x;
      found = ap (λ d. lookup k d) at ∙ lookup-insert j k x r.items ∙ rw same refl;
      lasts = lasts v (ap (λ i. lookup i r.items) ((pair_beq_iff j k).0 same) ∙ e);
    }
    | inr other ↦ record {
      now = v;
      found = ap (λ d. lookup k d) at ∙ lookup-insert j k x r.items ∙ rw other e;
      lasts = Lasts-refl v;
    }
  ]),
)

save-Keeps :
    (k : Key) (m : Option EditorMetadata) (p : Option String) (r : Repository)
    → IsKeyed r
    → Keeps r (save_editor_metadata k m p r).1
unfolding save_editor_metadata
save-Keeps k m p r h = elim (Option-cases (lookup k r.items)) [
  | inl missing ↦ rw (missing, save_found) (Keeps-refl r h)
  | inr (v, found) ↦
      rw (found, save_found)
        (insert-Keeps k _ r _ refl (h k v found) h (λ w e.
          rw (some-injective _ _ (sym e ∙ found)) (record { contents = refl; final = λ f. refl })))
]

still_free :
    (j k : Key) (v x : ProposalVersion) (r : Repository)
    → lookup j r.items ≡ some v
    → lookup k r.items ≡ none
    → lookup k (insert j x r.items) ≡ none
still_free j k v x r found free = elim (Bool-cases (j == k)) [
  | inl same ↦
      absurd (taken (sym found ∙ ap (λ i. lookup i r.items) ((pair_beq_iff j k).0 same) ∙ free))
  | inr other ↦ lookup-insert j k x r.items ∙ rw other free
]
  where
    taken : {w : ProposalVersion} → ◌≡◌ {A = Option ProposalVersion} (some w) none → ⊥
    taken e = cc

is_open :
    (s : ProposalStatus) → (status_beq s draft || status_beq s conflict) ≡ true → is_final s ≡ false
unfolding status_beq
is_open s h = ground arith

module _ (sha256 : String → String) (dumps : EditorMetadata → String) where
  -- The new draft goes to a key that has no version.
  add_item-Keeps :
      (item : ProposalVersion) (campaign : String) (expected : ℕ) (r : Repository)
      → IsKeyed r
      → lookup (key_of item) r.items ≡ none
      → Keeps r (add_item item campaign expected r)
  unfolding add_item put stamp advance
  add_item-Keeps item campaign expected r h free =
      insert-Keeps (key_of item) (record item { status = draft }) r _ refl refl h
        (λ v e. absurd (taken (sym e ∙ free)))
    where
      taken : {v : ProposalVersion} → ◌≡◌ {A = Option ProposalVersion} (some v) none → ⊥
      taken e = cc

  retired-Keeps :
      (prior : ProposalVersion) (k : Key) (r : Repository)
      → IsKeyed r
      → lookup k r.items ≡ some prior
      → is_final prior.status ≡ false
      → Keeps r (put (key_of prior) (retired sha256 dumps prior) r)
  unfolding put retired
  retired-Keeps prior k r h found live =
      insert-Keeps (key_of prior) (retired sha256 dumps prior) r _ refl refl h (λ v e.
        let same : prior ≡ v =
          some-injective _ _ (sym found ∙ ap (λ i. lookup i r.items) (sym (h k prior found)) ∙ e) in
        rw (sym same) (record { contents = refl; final = λ f. absurd (clash f live) }))
    where
      clash : {b : Bool} → b ≡ true → b ≡ false → ⊥
      clash t f = cc (t, f)

  add_over-Keeps :
      (id : String) (version : ℕ) (o : Option ProposalVersion) (item : ProposalVersion)
      (campaign : String) (expected : ℕ) (r : Repository)
      → IsKeyed r
      → lookup (id, version) r.items ≡ o
      → lookup (key_of item) r.items ≡ none
      → Keeps r (add_over sha256 dumps o item campaign expected r).1
  unfolding add_over
  add_over-Keeps id version none item campaign expected r h found free = Keeps-refl r h
  add_over-Keeps id version (some prior) item campaign expected r h found free =
      elim (Bool-cases (can_correct prior item)) [
        | inr other ↦ rw other (Keeps-refl r h)
        | inl fits ↦
            let q = put (key_of prior) (retired sha256 dumps prior) r in
            let first =
              retired-Keeps prior (id, version) r h found
                (is_open prior.status (unfold can_correct in ground (arith, fits))) in
            rw fits (
              Keeps-trans r q _ first (
                add_item-Keeps item campaign expected q first.0 (
                  still_free (key_of prior) (key_of item) prior (retired sha256 dumps prior) r
                    (ap (λ i. lookup i r.items) (h (id, version) prior found) ∙ found) free)))
      ]

  correction-Keeps :
      (c : Correction) (item : ProposalVersion) (campaign : String) (expected : ℕ) (r : Repository)
      → IsKeyed r
      → lookup (key_of item) r.items ≡ none
      → Keeps r (add_correction sha256 dumps c item campaign expected r).1
  unfolding add_correction
  correction-Keeps absent item campaign expected r h free =
      add_item-Keeps item campaign expected r h free
  correction-Keeps malformed item campaign expected r h free = Keeps-refl r h
  correction-Keeps (corrects id version) item campaign expected r h free =
      add_over-Keeps id version (lookup (id, version) r.items) item campaign expected r h refl free

  add_with-Keeps :
      (m : Option EditorMetadata) (item : ProposalVersion) (campaign : String) (expected : ℕ)
      (r : Repository)
      → IsKeyed r
      → Keeps r (add_with sha256 dumps m item campaign expected r).1
  unfolding add_with
  add_with-Keeps none item campaign expected r h = Keeps-refl r h
  add_with-Keeps (some m) item campaign expected r h =
      elim (Bool-cases (m.editor_workflow_version == some (expected + 1))) [
        | inr other ↦ rw other (Keeps-refl r h)
        | inl next ↦ elim (Bool-cases (editor_workflow_version campaign r == expected)) [
          | inr other ↦ rw (next, other) (Keeps-refl r h)
          | inl turn ↦ elim (Bool-cases (next_version item.proposal_id r == item.version)) [
            | inr other ↦ rw (next, turn, other) (Keeps-refl r h)
            | inl new ↦
                rw (next, turn, new)
                  (correction-Keeps m.correction_of item campaign expected r h (
                    ap (λ n. lookup (item.proposal_id, n) r.items)
                      (sym ((nat_beq_iff (next_version item.proposal_id r) item.version).0 new))
                    ∙ lookup-next_version item.proposal_id r h))
          ]
        ]
      ]

  add_editor-Keeps :
      (item : ProposalVersion) (campaign : String) (expected : ℕ) (r : Repository)
      → IsKeyed r
      → Keeps r (add_editor sha256 dumps item campaign expected r).1
  unfolding add_editor
  add_editor-Keeps item campaign expected r h = elim (Bool-cases (campaign == item.campaign_id)) [
    | inl own ↦ rw own (add_with-Keeps item.editor_metadata item campaign expected r h)
    | inr other ↦ rw other (Keeps-refl r h)
  ]

advance-Keeps :
    (campaign : String) (expected : ℕ) (r : Repository)
    → IsKeyed r
    → Keeps r (advance_editor campaign expected r).1
unfolding advance_editor advance
advance-Keeps campaign expected r h =
    elim (Bool-cases (editor_workflow_version campaign r == expected)) [
      | inl turn ↦ rw turn (h, (λ k v e. record { now = v; found = e; lasts = Lasts-refl v }))
      | inr other ↦ rw other (Keeps-refl r h)
    ]

module _ (sha256 : String → String) (dumps : List ChangeDigest → String)
    (dumps_metadata : EditorMetadata → String) (c : Callbacks) where
  calls-Keeps : (r q : Repository) → Calls sha256 dumps c r q → IsKeyed r → Keeps r q
  calls-Keeps r q calls h = (
    Edits-IsKeyed (Calls-Edits sha256 dumps c r q calls h) h,
    (λ k v e.
        let kept = Calls-Remains sha256 dumps c r q k v calls h e in
        record {
          now = kept.now;
          found = kept.found;
          lasts = record {
            contents =
                kept.evolves.contents
                ∙ ap
                    (λ m. record v {
                      status = kept.now.status;
                      published_revision_id = kept.now.published_revision_id;
                      editor_metadata = m;
                    })
                    (sym (ap (λ (x : ProposalVersion). x.editor_metadata) kept.evolves.contents));
            final = λ f. ap (λ (x : ProposalVersion). x.status) (kept.evolves.final f);
          };
        }),
  )

  -- Calls of the service and of the editor in any order.
  pub data Work (r : Repository) : Repository → Type 0 where
    not_yet : Work r r
    serves : {p q : Repository} → Work r p → Calls sha256 dumps c p q → Work r q
    adds :
        {p : Repository} (item : ProposalVersion) (campaign : String) (expected : ℕ)
        → Work r p
        → Work r (add_editor sha256 dumps_metadata item campaign expected p).1
    advances :
        {p : Repository} (campaign : String) (expected : ℕ)
        → Work r p
        → Work r (advance_editor campaign expected p).1
    saves :
        {p : Repository} (k : Key) (m : Option EditorMetadata) (revision : Option String)
        → Work r p
        → Work r (save_editor_metadata k m revision p).1

  Work-Keeps : (r q : Repository) → Work r q → IsKeyed r → Keeps r q
  Work-Keeps r q not_yet h = Keeps-refl r h
  Work-Keeps r q (serves {p = p} w calls) h =
      let before = Work-Keeps r p w h in Keeps-trans r p q before (calls-Keeps p q calls before.0)
  Work-Keeps r q (adds {p = p} item campaign expected w) h =
      let before = Work-Keeps r p w h in
      Keeps-trans r p q before
        (add_editor-Keeps sha256 dumps_metadata item campaign expected p before.0)
  Work-Keeps r q (advances {p = p} campaign expected w) h =
      let before = Work-Keeps r p w h in
      Keeps-trans r p q before (advance-Keeps campaign expected p before.0)
  Work-Keeps r q (saves {p = p} k m revision w) h =
      let before = Work-Keeps r p w h in
      Keeps-trans r p q before (save-Keeps k m revision p before.0)

  -- A version that is in the repository stays there under its key through the calls of the service and
  -- those of the editor, in any order, and keeps its changes, digests, base revision and every other part
  -- but its status, the revision that it is published as and its editor metadata. Once it is rejected or
  -- published its status is final. (It is assumed that at first versions stand under their own keys.)
  pub Work-Stays :
      (r q : Repository) (k : Key) (v : ProposalVersion)
      → Work r q
      → IsKeyed r
      → lookup k r.items ≡ some v
      → Stays k v q
  Work-Stays r q k v w h e = (Work-Keeps r q w h).1 k v e
