-- ===== src/Revisions/Lineage/Parents.antt =====
-- The parents of the manifests that `verify_linear_inventory` returns.
use warden_drydock.Prelude.{
  ℕ, ◌+◌, String, ◌≡◌, refl, ◌∙◌, sym, ap, ◌&&◌, Option, none, some, List, [], ◌∷◌, ◌++◌, ◌==◌, Mem,
  pair_eq, Mem-append, Mem-append_left, Mem-append_right, mem-filter, inl, inr, Bool-cases, &&-true,
  arith, nat_eq, string_eq, option_eq, option_beq_iff, nat_beq_iff,
}
use mathlib.Core.Path.{subst}
use text.Mathlib.TextEquality.{eq_iff}
use warden_drydock.Prelude.Sort.{mem-sort}
use warden_drydock.Prelude.Result.{Result, ok, err, bind-eq-ok}
use warden_drydock.Revisions.Models.{RevisionError, SnapshotManifest}
use warden_drydock.Revisions.Lineage.{ordinal_leb, ordered, check_line, check_lines}

pub ok_same :
    {a b : List SnapshotManifest}
    → ◌≡◌ {A = Result RevisionError (List SnapshotManifest)} (ok a) (ok b)
    → a ≡ b
ok_same h = cc

pub err≢ok :
    {e : RevisionError} {b : List SnapshotManifest}
    → ◌≡◌ {A = Result RevisionError (List SnapshotManifest)} (err e) (ok b)
    → ⊥
err≢ok h = cc

-- The manifest has the ordinal and the parent given, or its parent is in the list and comes just
-- before it.
pub data HasParent (n : ℕ) (parent : Option String) (m : SnapshotManifest)
    (vs : List SnapshotManifest) : Type 0 where
  first : m.ordinal ≡ n → m.parent_revision ≡ parent → HasParent n parent m vs
  after :
      (p : SnapshotManifest)
      → Mem p vs
      → p.campaign_id ≡ m.campaign_id
      → p.ordinal + 1 ≡ m.ordinal
      → m.parent_revision ≡ some p.revision_id
      → HasParent n parent m vs

HasParent-within :
    (n : ℕ) (parent : Option String) (m : SnapshotManifest) (vs us : List SnapshotManifest)
    → ((p : SnapshotManifest) → Mem p vs → Mem p us)
    → HasParent n parent m vs
    → HasParent n parent m us
HasParent-within n parent m vs us within (first o e) = first o e
HasParent-within n parent m vs us within (after p i c o e) = after p (within p i) c o e

after_head :
    (n : ℕ) (parent : Option String) (m d : SnapshotManifest) (vs : List SnapshotManifest)
    → d.ordinal ≡ n
    → d.campaign_id ≡ m.campaign_id
    → HasParent (n + 1) (some d.revision_id) m vs
    → HasParent n parent m (d ∷ vs)
after_head n parent m d vs at same (first o e) = after d (inl refl) same (omega (arith, at, o)) e
after_head n parent m d vs at same (after p i c o e) = after p (inr i) c o e

-- The head of a line that the loop accepts has what was expected, and the rest is accepted.
pub head_checks :
    (n : ℕ) (parent : Option String) (d : SnapshotManifest) (ms vs : List SnapshotManifest)
    → check_line n parent (d ∷ ms) ≡ ok vs
    → (ws : List SnapshotManifest) × (d.ordinal ≡ n)
      × (d.parent_revision ≡ parent)
      × (check_line (n + 1) (some d.revision_id) ms ≡ ok ws)
      × (d ∷ ws ≡ vs)
unfolding check_line
head_checks n parent d ms vs e = elim (Bool-cases (d.ordinal == n && d.parent_revision == parent)) [
  | inr other ↦ absurd (err≢ok (rw other at e))
  | inl fits ↦
      let (o, q) = &&-true (d.ordinal == n) (d.parent_revision == parent) fits in
      let (ws, rest, same) =
        bind-eq-ok (check_line (n + 1) (some d.revision_id) ms) _ vs (rw fits at e) in
      (
        ws,
        (nat_beq_iff d.ordinal n).0 o,
        (option_beq_iff d.parent_revision parent).0 q,
        rest,
        ok_same same,
      )
]

line-HasParent :
    (n : ℕ) (parent : Option String) (c : String) (ms vs : List SnapshotManifest)
    (m : SnapshotManifest)
    → check_line n parent ms ≡ ok vs
    → ((d : SnapshotManifest) → Mem d ms → d.campaign_id ≡ c)
    → Mem m vs
    → HasParent n parent m vs × (m.campaign_id ≡ c)
unfolding check_line
line-HasParent n parent c [] vs m e own i =
    let none_in : ⊥ = subst (Mem m) (sym (ok_same e)) i in absurd none_in
line-HasParent n parent c (d ∷ ms) vs m e own i =
    let (ws, at, is, rest, same) = head_checks n parent d ms vs e in
    let i' : Mem m (d ∷ ws) = subst (Mem m) (sym same) i in
    let answer : HasParent n parent m (d ∷ ws) × (m.campaign_id ≡ c) = elim i' [
      | inl head ↦ (
        first (ap (λ (x : SnapshotManifest). x.ordinal) head ∙ at)
            (ap (λ (x : SnapshotManifest). x.parent_revision) head ∙ is),
        ap (λ (x : SnapshotManifest). x.campaign_id) head ∙ own d (inl refl),
      )
      | inr later ↦
          let (before, named) =
            line-HasParent (n + 1) (some d.revision_id) c ms ws m rest (λ x j. own x (inr j))
              later in
          (after_head n parent m d ws at (own d (inl refl) ∙ sym named) before, named)
    ] in
    subst (λ us. HasParent n parent m us × (m.campaign_id ≡ c)) same answer

ordered_own :
    (c : String) (ms : List SnapshotManifest) (d : SnapshotManifest)
    → Mem d (ordered c ms)
    → d.campaign_id ≡ c
unfolding ordered
ordered_own c ms d i =
    (eq_iff d.campaign_id c).0
      (mem-filter (λ (m : SnapshotManifest). m.campaign_id == c) d ms
        ((mem-sort ordinal_leb d _).0 i)).1

pub lines-HasParent :
    (cs : List String) (ms vs : List SnapshotManifest) (m : SnapshotManifest)
    → check_lines cs ms ≡ ok vs
    → Mem m vs
    → HasParent 1 none m vs
unfolding check_lines
lines-HasParent [] ms vs m e i =
    let none_in : ⊥ = subst (Mem m) (sym (ok_same e)) i in absurd none_in
lines-HasParent (c ∷ cs) ms vs m e i =
    let (line, checked, rest) = bind-eq-ok (check_line 1 none (ordered c ms)) _ vs e in
    let (others, more, same) = bind-eq-ok (check_lines cs ms) _ vs rest in
    let i' : Mem m (line ++ others) = subst (Mem m) (sym (ok_same same)) i in
    subst (HasParent 1 none m) (ok_same same) (elim (Mem-append m line others i') [
      | inl here ↦
          HasParent-within 1 none m line (line ++ others) (λ p j. Mem-append_left p line others j)
            (line-HasParent 1 none c (ordered c ms) line m checked (ordered_own c ms) here).0
      | inr there ↦
          HasParent-within 1 none m others (line ++ others)
            (λ p j. Mem-append_right p line others j) (lines-HasParent cs ms others m more there)
    ])
