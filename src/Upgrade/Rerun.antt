-- ===== src/Upgrade/Rerun.antt =====
-- A second run after an upgrade that applied.
use warden_drydock.Prelude.{
  String, ◌≡◌, refl, ◌∙◌, Bool, false, Option, some, List, [], ◌∷◌, arith, inl, inr, Bool-cases,
  ◌==◌, string_eq, option_eq, list_eq, ◌++◌, not, ◌&&◌, ap,
}
use text.Mathlib.TextEquality.{eq_iff}
use warden_drydock.Upgrade.{
  Tree, complete, Lock, Campaign, Desired, Report, failed, blocked, already_current, previewed,
  applied, plan, copy_all, write, decide, upgrade_to, upgrade_campaign, written_lock,
  metadata_changed,
}
use warden_drydock.Upgrade.Cases.{Comparison, upgrade_cases, upgrade_campaign-compares}
use warden_drydock.Upgrade.Copies.{metadata_paths, write_cases}
use warden_drydock.Upgrade.Plan.{IsPrepared, plan_all_skip, verdict-again}

module _ (sha256 : String → String) (refuses : Tree → String → Bool) where
  -- The campaign after a complete run that left the files `u`.
  abbrev pub completed : Desired → Tree → Campaign
  completed d u = record { tree = u; manifest = some d.manifest; lock = some (written_lock d) }

  module _ (init_campaign : String → String → Option Desired) where
    -- What the report `applied` says of its run.
    record Completed (c c' : Campaign) : Type 0 where
      l : Lock
      d : Desired
      found : Comparison init_campaign c l d
      clear : (plan sha256 c.tree l.files d.files).1 ≡ []
      u : Tree
      done :
          copy_all refuses d.tree ((plan sha256 c.tree l.files d.files).0 ++ metadata_paths) c.tree
          ≡ (complete, u)
      final : c' ≡ completed d u

    abbrev AppliedTo : Campaign → Report × Campaign → Type 0
    AppliedTo c (applied _ _, c') = Completed c c'
    AppliedTo c _ = Unit

    module _ (c : Campaign) (l : Lock) (d : Desired) (found : Comparison init_campaign c l d) where
      write-AppliedTo :
          (changes : List String) (metadata : Bool)
          → plan sha256 c.tree l.files d.files ≡ (changes, [])
          → AppliedTo c (write refuses c d changes metadata)
      write-AppliedTo changes metadata e =
          write_cases refuses c d changes metadata (AppliedTo c) (λ f t m h. tt)
            λ t done. record {
              l = l;
              d = d;
              found = found;
              clear = ap (λ x. x.1) e;
              u = t;
              done = rw (ap (λ x. x.0) e) done;
              final = refl;
            }

      decide-AppliedTo :
          (apply metadata : Bool) (x : List String × List String)
          → plan sha256 c.tree l.files d.files ≡ x
          → AppliedTo c (decide sha256 refuses apply c d metadata x)
      unfolding decide
      decide-AppliedTo apply metadata (changes, p ∷ conflicts) e = tt
      decide-AppliedTo apply metadata (changes, []) e =
          elim (Bool-cases (changes == [] && not metadata)) [
            | inl same ↦ rw same tt
            | inr differs ↦ elim (Bool-cases apply) [
              | inl yes' ↦ rw (differs, yes') (write-AppliedTo changes metadata e)
              | inr no' ↦ rw (differs, no') tt
            ]
          ]

    upgrade-AppliedTo :
        (apply : Bool) (c : Campaign)
        → AppliedTo c (upgrade_campaign sha256 refuses init_campaign apply c)
    unfolding upgrade_to
    upgrade-AppliedTo apply c =
        upgrade_cases sha256 refuses init_campaign (AppliedTo c) apply c (λ f. tt)
          λ l d found. decide-AppliedTo c l d found apply _ _ refl

    -- The prepared directory has the name and adapter that it was prepared for.
    abbrev pub KeepsNames : Type 0
    KeepsNames =
        (name adapter : String) (d : Desired)
        → init_campaign name adapter ≡ some d
        → IsPrepared sha256 d
          × (d.manifest ≡ record { campaign_name = some name; adapter = some adapter })

    metadata_same : (d : Desired) → metadata_changed sha256 (written_lock d) d ≡ false
    unfolding metadata_changed written_lock
    metadata_same d = ground (
      arith,
      eq_iff d.framework_version d.framework_version,
      eq_iff d.adapter_version d.adapter_version,
    )

    current_again :
        (apply : Bool) (c : Campaign) (l : Lock) (d : Desired) (u : Tree)
        → IsPrepared sha256 d
        → (plan sha256 c.tree l.files d.files).1 ≡ []
        → copy_all refuses d.tree ((plan sha256 c.tree l.files d.files).0 ++ metadata_paths) c.tree
          ≡ (complete, u)
        → upgrade_to sha256 refuses apply (completed d u) (written_lock d) d
          ≡ (already_current, completed d u)
    unfolding upgrade_to decide
    current_again apply c l d u ready clear done =
        rw
          (plan_all_skip sha256 u _ d.files
            (verdict-again sha256 refuses c.tree u l.files d ready clear done))
          (rw (metadata_same d))

    upgrade_campaign-Completed :
        (c : Campaign) (x : Report × Campaign) (changes : List String) (metadata : Bool)
        → x.0 ≡ applied changes metadata
        → AppliedTo c x
        → Completed c x.1
    upgrade_campaign-Completed c (applied _ _, c') changes metadata e a = a
    upgrade_campaign-Completed c (failed f, c') changes metadata e a = absurd (cc)
    upgrade_campaign-Completed c (blocked ps, c') changes metadata e a = absurd (cc)
    upgrade_campaign-Completed c (already_current, c') changes metadata e a = absurd (cc)
    upgrade_campaign-Completed c (previewed _ _, c') changes metadata e a = absurd (cc)

    rerun :
        (again : Bool) (c c' : Campaign)
        → KeepsNames
        → Completed c c'
        → upgrade_campaign sha256 refuses init_campaign again c' ≡ (already_current, c')
    unfolding written_lock
    rerun again c c' ready k =
        let (prepared, named) = ready k.found.name k.found.adapter k.d k.found.prepared in
        rw k.final (
          upgrade_campaign-compares sha256 refuses init_campaign again (completed k.d k.u)
            (written_lock k.d) k.d k.found.name k.found.adapter (ap some named) refl refl
            k.found.name_filled k.found.adapter_filled k.found.prepared
          ∙ current_again again c k.l k.d k.u prepared k.clear k.done)

    -- Once an upgrade has applied, running it again, as a preview or with --apply, reports that the
    -- campaign is already current and leaves it as it is. (Of `init_campaign` it is assumed that the
    -- directory it prepares for a name and an adapter has them in its manifest, and the hash of each
    -- listed file in its lock.)
    pub upgrade_campaign_twice :
        (apply again : Bool) (c : Campaign) (changes : List String) (metadata : Bool)
        → KeepsNames
        → (upgrade_campaign sha256 refuses init_campaign apply c).0 ≡ applied changes metadata
        → let c' = (upgrade_campaign sha256 refuses init_campaign apply c).1 in
          upgrade_campaign sha256 refuses init_campaign again c' ≡ (already_current, c')
    upgrade_campaign_twice apply again c changes metadata ready e =
        rerun again c _ ready
          (upgrade_campaign-Completed c _ changes metadata e (upgrade-AppliedTo apply c))
