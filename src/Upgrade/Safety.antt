-- ===== src/Upgrade/Safety.antt =====
-- What an upgrade may write: nothing unless it reports that it applied, and never a file whose
-- contents differ from what the lock recorded.
use warden_drydock.Prelude.{
  String, ◌≡◌, refl, ◌≢◌, ◌∙◌, Bool, true, false, Option, none, some, List, [], ◌∷◌, arith, inl,
  inr, Mem, Bool-cases, ◌==◌, ◌&&◌, not, ap, sym, string_eq, list_eq, ◌++◌, Mem-append,
}
use mathlib.Core.Path.{subst}
use warden_drydock.Prelude.Dict.{Dict, lookup}
use warden_drydock.Upgrade.{
  LockEntry, Lock, Campaign, Desired, Failure, not_copied, Report, failed, applied, recorded, Tree,
  Copied, manifest_path, lock_path, plan, write, decide, upgrade_to, upgrade_campaign,
}
use warden_drydock.Upgrade.Cases.{upgrade_cases, hash_at-some, changes-recorded}
use warden_drydock.Upgrade.Copies.{metadata_paths, Others, copy_all-Others, write_cases}

-- The campaign after a run that began at `c`, by the report. A run that applied has changed no file but
-- the changes that it reports and the two metadata files; one that stopped at a copy has not changed
-- the lock; after any other the campaign is the same.
abbrev pub KeptBy : Bool → Campaign → Report × Campaign → Type 0
KeptBy true c (applied changes _, c') = Others (changes ++ metadata_paths) c.tree c'.tree
KeptBy true c (failed (not_copied _), c') = c'.lock ≡ c.lock
KeptBy _ c (_, c') = c' ≡ c

Others-Holds :
    (ps : List String) (t u : Tree) (p text : String)
    → Others ps t u
    → ¬ Mem p ps
    → t p ≡ some text
    → u p ≡ some text
Others-Holds ps t u p text h n e = elim (h p) [ inl m ↦ absurd (n m) | inr same ↦ same ∙ e ]

module _ (sha256 : String → String) (refuses : Tree → String → Bool)
    (init_campaign : String → String → Option Desired) where
  decide-KeptBy :
      (apply : Bool) (c : Campaign) (d : Desired) (metadata : Bool)
      (plan : List String × List String)
      → KeptBy apply c (decide sha256 refuses apply c d metadata plan)
  unfolding decide
  decide-KeptBy true c d metadata (changes, []) =
      elim (Bool-cases (changes == [] && not metadata)) [
        | inl same ↦ rw same refl
        | inr differs ↦ rw differs (
            write_cases refuses c d changes metadata (KeptBy true c) (λ f t m others. refl)
              (λ t done.
                subst (λ (x : Copied × Tree). Others (changes ++ metadata_paths) c.tree x.1) done
                  (copy_all-Others refuses d.tree (changes ++ metadata_paths) c.tree)))
      ]
  decide-KeptBy false c d metadata (changes, []) = ground arith
  decide-KeptBy true c d metadata (changes, p ∷ conflicts) = refl
  decide-KeptBy false c d metadata (changes, p ∷ conflicts) = refl

  failed-KeptBy : (apply : Bool) (c : Campaign) (f : Failure) → KeptBy apply c (failed f, c)
  failed-KeptBy true c (not_copied f) = refl
  failed-KeptBy true c _ = refl
  failed-KeptBy false c f = refl

  -- A preview changes nothing, whatever it reports. A run with --apply that reports that it applied has
  -- changed no file but those that it reports and the two metadata files. One that stops at a copy, as
  -- its source is missing or the file system raises, may have copied some of the files, but has not
  -- written the lock. When it is blocked by conflicts, current, or fails before it copies, nothing has
  -- changed.
  pub upgrade_campaign-KeptBy :
      (apply : Bool) (c : Campaign)
      → KeptBy apply c (upgrade_campaign sha256 refuses init_campaign apply c)
  unfolding upgrade_to
  upgrade_campaign-KeptBy apply c =
      upgrade_cases sha256 refuses init_campaign (KeptBy apply c) apply c (failed-KeptBy apply c)
        λ l d _. decide-KeptBy apply c d _ _

  -- The file at `p` still holds `text`.
  abbrev Holds : String → String → Report × Campaign → Type 0
  Holds p text (_, c) = c.tree p ≡ some text

  write-Holds :
      (c : Campaign) (d : Desired) (changes : List String) (metadata : Bool) (p text : String)
      → c.tree p ≡ some text
      → ¬ Mem p (changes ++ metadata_paths)
      → Holds p text (write refuses c d changes metadata)
  write-Holds c d changes metadata p text e n =
      write_cases refuses c d changes metadata (Holds p text)
        (λ f t m h. Others-Holds (changes ++ metadata_paths) c.tree t p text h n e)
        (λ t done.
          Others-Holds (changes ++ metadata_paths) c.tree t p text
            (subst (λ (x : Copied × Tree). Others (changes ++ metadata_paths) c.tree x.1) done
              (copy_all-Others refuses d.tree (changes ++ metadata_paths) c.tree))
            n e)

  decide-Holds :
      (apply : Bool) (c : Campaign) (d : Desired) (metadata : Bool)
      (changes conflicts : List String) (p text : String)
      → c.tree p ≡ some text
      → ¬ Mem p (changes ++ metadata_paths)
      → Holds p text (decide sha256 refuses apply c d metadata (changes, conflicts))
  unfolding decide
  decide-Holds apply c d metadata changes [] p text e m =
      ground (arith, write-Holds c d changes metadata p text e m)
  decide-Holds apply c d metadata changes (q ∷ conflicts) p text e m = e

  -- A file other than the two metadata files, whose contents do not hash to what the lock records for
  -- it, edited or never recorded, has the same contents after any run of the upgrade, however that run
  -- ends.
  pub upgrade_campaign-keeps_edited :
      (apply : Bool) (c : Campaign) (l : Lock) (p text : String)
      → c.lock ≡ some l
      → c.tree p ≡ some text
      → p ≢ manifest_path
      → p ≢ lock_path
      → recorded (lookup p l.files) ≢ some (sha256 text)
      → (upgrade_campaign sha256 refuses init_campaign apply c).1.tree p ≡ some text
  unfolding upgrade_to
  upgrade_campaign-keeps_edited apply c l p text el e not_manifest not_lock edited =
      upgrade_cases sha256 refuses init_campaign (Holds p text) apply c (λ f. e)
        λ l' d found. decide-Holds apply c d _ _ _ p text e λ m.
          elim (Mem-append p (plan sha256 c.tree l'.files d.files).0 metadata_paths m) [
            | inl listed ↦ edited (
                ap (λ r. recorded (lookup p (files_of r))) (sym el ∙ found.lock)
                ∙ changes-recorded sha256 c.tree l'.files d.files p (sha256 text)
                    (hash_at-some sha256 c.tree p text e) listed)
            | inr (inl same) ↦ not_manifest same
            | inr (inr (inl same)) ↦ not_lock same
            | inr (inr (inr none_left)) ↦ none_left
          ]
    where
      files_of : Option Lock → Dict String LockEntry
      files_of none = []
      files_of (some x) = x.files
