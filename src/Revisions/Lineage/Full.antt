-- ===== src/Revisions/Lineage/Full.antt =====
-- What the loops of `verify_linear_inventory` return: every manifest of the inventory.
use warden_drydock.Prelude.{
  ℕ, ◌+◌, String, ◌≡◌, refl, ◌∙◌, sym, ap, Bool, Option, none, some, List, [], ◌∷◌, ◌==◌, all,
  contains, map, filter, Mem, All, true, pair_eq, pair_beq_iff, Mem-append, Mem-append_left,
  Mem-append_right, mem-filter, inl, inr, Bool-cases, arith, nat_eq, string_eq, option_eq,
}
use mathlib.Core.Path.{subst}
use text.Mathlib.TextEquality.{eq_iff}
use warden_drydock.Prelude.Sort.{mem-sort}
use warden_drydock.Prelude.Text.{str_leb}
use warden_drydock.Prelude.Result.{ok, bind-eq-ok}
use warden_drydock.Revisions.Models.{SnapshotManifest}
use warden_drydock.Prelude.Dict.{Dict, lookup, keys}
use warden_drydock.Revisions.Store.{Key, Stored}
use warden_drydock.Revisions.Lineage.{
  dedupe, campaigns, ordinal_leb, ordered, check_line, check_lines,
}
use warden_drydock.Revisions.Lineage.Parents.{ok_same, head_checks}

pub All-of :
    (P : SnapshotManifest → Type 0) (vs : List SnapshotManifest)
    → ((m : SnapshotManifest) → Mem m vs → P m)
    → All P vs
All-of P [] h = tt
All-of P (v ∷ vs) h = (h v (inl refl), All-of P vs (λ m i. h m (inr i)))

pub Mem-all :
    (p : SnapshotManifest → Bool) (ms : List SnapshotManifest) (m : SnapshotManifest)
    → all p ms ≡ true
    → Mem m ms
    → p m ≡ true
Mem-all p [] m h i = absurd i
Mem-all p (x ∷ ms) m h (inl e) = rw e (ground (arith, h))
Mem-all p (x ∷ ms) m h (inr i) = Mem-all p ms m (ground (arith, h)) i

-- The loop returns the whole line.
check_line-same :
    (n : ℕ) (parent : Option String) (ms vs : List SnapshotManifest)
    → check_line n parent ms ≡ ok vs
    → vs ≡ ms
unfolding check_line
check_line-same n parent [] vs e = sym (ok_same e)
check_line-same n parent (d ∷ ms) vs e =
    let (ws, _, _, rest, same) = head_checks n parent d ms vs e in
    sym same ∙ ap (λ us. d ∷ us) (check_line-same (n + 1) (some d.revision_id) ms ws rest)

Mem-ordered :
    (m : SnapshotManifest) (ms : List SnapshotManifest)
    → Mem m ms
    → Mem m (ordered m.campaign_id ms)
unfolding ordered filter
Mem-ordered m ms i = (mem-sort ordinal_leb m _).1 (Mem-filter_own m.campaign_id m ms i refl)
  where
    Mem-filter_own :
        (c : String) (a : SnapshotManifest) (xs : List SnapshotManifest)
        → Mem a xs
        → a.campaign_id ≡ c
        → Mem a (filter (λ (x : SnapshotManifest). x.campaign_id == c) xs)
    Mem-filter_own c a [] m h = absurd m
    Mem-filter_own c a (x ∷ xs) (inl e) h =
        let own : (x.campaign_id == c) ≡ true =
          (eq_iff x.campaign_id c).1 (ap (λ (y : SnapshotManifest). y.campaign_id) (sym e) ∙ h) in
        rw own (inl e)
    Mem-filter_own c a (x ∷ xs) (inr m) h = elim (Bool-cases (x.campaign_id == c)) [
      | inl e ↦ rw e (inr (Mem-filter_own c a xs m h))
      | inr e ↦ rw e (Mem-filter_own c a xs m h)
    ]

-- The outer loop returns every manifest of the campaigns that it visits, and nothing else.
pub check_lines-full :
    (cs : List String) (ms vs : List SnapshotManifest) (m : SnapshotManifest)
    → check_lines cs ms ≡ ok vs
    → Mem m ms
    → Mem m.campaign_id cs
    → Mem m vs
unfolding check_lines
check_lines-full [] ms vs m e i c = absurd c
check_lines-full (c ∷ cs) ms vs m e i here =
    let (line, checked, rest) = bind-eq-ok (check_line 1 none (ordered c ms)) _ vs e in
    let (others, more, same) = bind-eq-ok (check_lines cs ms) _ vs rest in
    subst (Mem m) (ok_same same) (elim here [
      | inl at ↦ Mem-append_left m line others (
          subst (Mem m) (sym (check_line-same 1 none (ordered c ms) line checked))
            (subst (λ k. Mem m (ordered k ms)) at (Mem-ordered m ms i)))
      | inr later ↦ Mem-append_right m line others (check_lines-full cs ms others m more i later)
    ])

pub check_lines-only :
    (cs : List String) (ms vs : List SnapshotManifest) (m : SnapshotManifest)
    → check_lines cs ms ≡ ok vs
    → Mem m vs
    → Mem m ms
unfolding check_lines ordered
check_lines-only [] ms vs m e i = let gone : ⊥ = subst (Mem m) (sym (ok_same e)) i in absurd gone
check_lines-only (c ∷ cs) ms vs m e i =
    let (line, checked, rest) = bind-eq-ok (check_line 1 none (ordered c ms)) _ vs e in
    let (others, more, same) = bind-eq-ok (check_lines cs ms) _ vs rest in
    elim (Mem-append m line others (subst (Mem m) (sym (ok_same same)) i)) [
      | inl here ↦
          (mem-filter (λ (x : SnapshotManifest). x.campaign_id == c) m ms
            ((mem-sort ordinal_leb m _).0
              (subst (Mem m) (check_line-same 1 none (ordered c ms) line checked) here))).0
      | inr there ↦ check_lines-only cs ms others m more there
    ]

contains-dedupe : (c : String) (cs : List String) → contains c (dedupe cs) ≡ contains c cs
unfolding dedupe
contains-dedupe c [] = refl
contains-dedupe c (d ∷ cs) = ground (arith, contains-dedupe c cs, contains-dedupe d cs, eq_iff c d)

contains-Mem : (c : String) (cs : List String) → contains c cs ≡ true → Mem c cs
contains-Mem c [] h = absurd (cc (h))
contains-Mem c (d ∷ cs) h = elim (Bool-cases (c == d)) [
  | inl same ↦ inl ((eq_iff c d).0 same)
  | inr other ↦ inr (contains-Mem c cs (rw other at h))
]

own_campaign :
    (m : SnapshotManifest) (ms : List SnapshotManifest)
    → Mem m ms
    → contains m.campaign_id (map (λ (x : SnapshotManifest). x.campaign_id) ms) ≡ true
own_campaign m [] i = absurd i
own_campaign m (x ∷ ms) (inl e) =
    ground (
      arith,
      (eq_iff m.campaign_id x.campaign_id).1 (ap (λ (y : SnapshotManifest). y.campaign_id) e),
    )
own_campaign m (x ∷ ms) (inr i) = ground (arith, own_campaign m ms i)

pub Mem-campaigns :
    (m : SnapshotManifest) (ms : List SnapshotManifest)
    → Mem m ms
    → Mem m.campaign_id (campaigns ms)
unfolding campaigns
Mem-campaigns m ms i = (mem-sort str_leb m.campaign_id _).1 (
    contains-Mem m.campaign_id _ (
      contains-dedupe m.campaign_id (map (λ (x : SnapshotManifest). x.campaign_id) ms)
      ∙ own_campaign m ms i))

pub Mem-keys : (k : Key) (x : Stored) (d : Dict Key Stored) → lookup k d ≡ some x → Mem k (keys d)
unfolding lookup keys
Mem-keys k x [] e = absurd (cc (e))
Mem-keys k x ((j, y) ∷ d) e = elim (Bool-cases (j == k)) [
  | inl same ↦ inl (sym ((pair_beq_iff j k).0 same))
  | inr other ↦ inr (Mem-keys k x d (rw other at e))
]
