-- ===== src/Upgrade/Copies.antt =====
-- The copies of an upgrade: what they leave alone, and how a run that copies ends.
use warden_drydock.Prelude.{
  String, ◌≡◌, refl, sym, ◌∙◌, ◌⊎◌, Bool, Option, some, List, [], ◌∷◌, ◌++◌, inl, inr, Mem,
  Bool-cases, Option-cases, ◌==◌, string_eq, Mem-append_left, Mem-append_right,
}
use mathlib.Core.Path.{subst}
use text.Mathlib.TextEquality.{eq_iff}
use warden_drydock.Upgrade.{
  Tree, Manifest, Campaign, Desired, CopyFailure, not_copied, Report, failed, applied, update,
  Copied, complete, stopped, copy_one, and_then, copy_all, manifest_path, lock_path, write_lock,
  write_manifest, write_changes, write, written_lock,
}

abbrev pub metadata_paths : List String
metadata_paths = manifest_path ∷ lock_path ∷ []

-- A path is among those copied, or has what it had.
abbrev pub Others : List String → Tree → Tree → Type 0
Others ps t t' = (p : String) → Mem p ps ⊎ (t' p ≡ t p)

update-other : (t : Tree) (q : String) (x : Option String) → Others (q ∷ []) t (update t q x)
unfolding update
update-other t q x p = elim (Bool-cases (q == p)) [
  | inl same ↦ inl (inl (sym ((eq_iff q p).0 same)))
  | inr other ↦ inr (rw other refl)
]

Others-trans :
    (ps qs : List String) (t u v : Tree) → Others ps t u → Others qs u v → Others (ps ++ qs) t v
Others-trans ps qs t u v h k p = elim (h p) [
  | inl m ↦ inl (Mem-append_left p ps qs m)
  | inr same ↦ elim (k p) [
    | inl m ↦ inl (Mem-append_right p ps qs m)
    | inr still ↦ inr (still ∙ same)
  ]
]

module _ (refuses : Tree → String → Bool) (source : Tree) where
  copy_one-Others : (q : String) (t : Tree) → Others (q ∷ []) t (copy_one refuses source q t).1
  unfolding copy_one
  copy_one-Others q t = elim (Bool-cases (refuses t q)) [
    | inl raises ↦ rw raises (λ p. inr refl)
    | inr goes ↦ elim (Option-cases (source q)) [
      | inl missing ↦ rw (goes, missing, copy_one) (λ p. inr refl)
      | inr (text, found) ↦ rw (goes, found, copy_one) (update-other t q (some text))
    ]
  ]

  pub copy_all-Others : (ps : List String) (t : Tree) → Others ps t (copy_all refuses source ps t).1
  unfolding copy_all and_then
  copy_all-Others [] t = λ p. inr refl
  copy_all-Others (q ∷ ps) t =
      next (copy_one refuses source q t) (copy_one-Others q t) (copy_all-Others ps)
    where
      next :
          (x : Copied × Tree)
          → Others (q ∷ []) t x.1
          → ((u : Tree) → Others ps u (copy_all refuses source ps u).1)
          → Others (q ∷ ps) t (and_then x (copy_all refuses source ps)).1
      next (complete, u) h rest = Others-trans (q ∷ []) ps t u _ h (rest u)
      next (stopped f, u) h rest = λ p. elim (h p) [
        | inl (inl e) ↦ inl (inl e)
        | inl (inr m) ↦ absurd m
        | inr same ↦ inr same
      ]

  pub copy_all-append :
      (ps qs : List String) (t : Tree)
      → copy_all refuses source (ps ++ qs) t
        ≡ and_then (copy_all refuses source ps t) (copy_all refuses source qs)
  unfolding copy_all and_then
  copy_all-append [] qs t = refl
  copy_all-append (q ∷ ps) qs t = next (copy_one refuses source q t) (copy_all-append ps qs)
    where
      next :
          (x : Copied × Tree)
          → ((u : Tree)
              → copy_all refuses source (ps ++ qs) u
                ≡ and_then (copy_all refuses source ps u) (copy_all refuses source qs))
          → and_then x (copy_all refuses source (ps ++ qs))
            ≡ and_then (and_then x (copy_all refuses source ps)) (copy_all refuses source qs)
      next (complete, u) rest = rest u
      next (stopped f, u) rest = refl

and_then-end :
    (refuses : Tree → String → Bool) (source : Tree) (x : Copied × Tree)
    → and_then x (copy_all refuses source []) ≡ x
unfolding and_then copy_all
and_then-end refuses source (complete, t) = refl
and_then-end refuses source (stopped f, t) = refl

module _ (refuses : Tree → String → Bool) (c : Campaign) (d : Desired) (changes : List String)
    (metadata : Bool) (P : Report × Campaign → Type 0)
    (stops : (f : CopyFailure) (t : Tree) (m : Option Manifest)
      → Others (changes ++ metadata_paths) c.tree t
      → P (failed (not_copied f), record { tree = t; manifest = m; lock = c.lock }))
    (finishes : (t : Tree)
      → copy_all refuses d.tree (changes ++ metadata_paths) c.tree ≡ (complete, t)
      → P (
        applied changes metadata,
        record { tree = t; manifest = some d.manifest; lock = some (written_lock d) },
      )) where
  full : Copied × Tree
  full = copy_all refuses d.tree (changes ++ metadata_paths) c.tree

  others : (x : Copied × Tree) → full ≡ x → Others (changes ++ metadata_paths) c.tree x.1
  unfolding full
  others x e =
      subst (λ (y : Copied × Tree). Others (changes ++ metadata_paths) c.tree y.1) e
        (copy_all-Others refuses d.tree (changes ++ metadata_paths) c.tree)

  at_lock :
      (u : Tree) (x : Copied × Tree)
      → full ≡ x
      → P (
          write_lock refuses
            (record c { tree = u; manifest = some d.manifest })
            d
            (applied changes metadata)
            x)
  unfolding write_lock full
  at_lock u (stopped f, t) e = stops f t (some d.manifest) (others (stopped f, t) e)
  at_lock u (complete, t) e = finishes t e

  at_manifest :
      (x : Copied × Tree)
      → full ≡ and_then x (copy_all refuses d.tree (lock_path ∷ []))
      → P (write_manifest refuses c d (applied changes metadata) x)
  unfolding write_manifest and_then copy_all
  at_manifest (stopped f, t) e = stops f t c.manifest (others (stopped f, t) e)
  at_manifest (complete, t) e =
      at_lock t (copy_one refuses d.tree lock_path t)
        (e ∙ and_then-end refuses d.tree (copy_one refuses d.tree lock_path t))

  at_changes :
      (x : Copied × Tree)
      → full ≡ and_then x (copy_all refuses d.tree metadata_paths)
      → P (write_changes refuses c d (applied changes metadata) x)
  unfolding write_changes and_then copy_all
  at_changes (stopped f, t) e = stops f t c.manifest (others (stopped f, t) e)
  at_changes (complete, t) e = at_manifest (copy_one refuses d.tree manifest_path t) e

  -- A run that copies stops at a copy that raises, before the lock is written, or finishes.
  pub write_cases : P (write refuses c d changes metadata)
  unfolding write full
  write_cases =
      at_changes (copy_all refuses d.tree changes c.tree)
        (copy_all-append refuses d.tree changes metadata_paths c.tree)
