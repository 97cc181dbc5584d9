-- ===== src/Upgrade/Tests.antt =====
-- Runs of the upgrade on a campaign with one managed file, and the theorems at such runs.
use warden_drydock.Prelude.{
  String, ◌≡◌, refl, true, false, Option, none, some, [], ◌∷◌, arith, ◌==◌, if◌then◌else◌, ◌||◌,
  Bool, string_eq,
}
use mathlib.Core.Path.{subst}
use mathlib.Core.Option.{some-injective}
use text.Mathlib.TextEquality.{eq_iff}
use warden_drydock.Prelude.Dict.{lookup}
use warden_drydock.Upgrade.{
  Tree, object, Lock, Campaign, Desired, blocked, already_current, applied, recorded, classify,
  manifest_path, lock_path, hash_at, verdict, upgrade_campaign,
}
use warden_drydock.Upgrade.Plan.{IsPrepared}
use warden_drydock.Upgrade.Safety.{KeptBy, upgrade_campaign-KeptBy, upgrade_campaign-keeps_edited}
use warden_drydock.Upgrade.Rerun.{upgrade_campaign_twice}

-- A text stands for its own digest.
abbrev sha256 : String → String
sha256 text = text

abbrev refuses : Tree → String → Bool
refuses t p = p == "locked"

abbrev one_file : String → Tree
one_file text p =
    if p == "a" then some text else if p == manifest_path || p == lock_path then some "{}" else none

abbrev init_campaign : String → String → Option Desired
init_campaign name adapter = some (record {
  tree = one_file "new";
  manifest = record { campaign_name = some name; adapter = some adapter };
  framework_version = "2";
  adapter_version = "1";
  files = ("a", record { ownership = "framework"; sha256 = "new" }) ∷ [];
})

abbrev lock : Lock
lock = record {
  schema_version = some 1;
  framework_version = some "1";
  adapter_version = some "1";
  files = ("a", object (some "old")) ∷ [];
}

-- The campaign whose file "a" holds `text`; the lock recorded "old".
abbrev campaign : String → Campaign
campaign text = record {
  tree = one_file text;
  manifest = some (record { campaign_name = some "n"; adapter = some "m" });
  lock = some lock;
}

run-pristine :
    (upgrade_campaign sha256 refuses init_campaign true (campaign "old")).0
    ≡ applied ("a" ∷ []) true
unfolding upgrade_campaign lookup verdict classify hash_at recorded
run-pristine = refl

run-edited :
    (upgrade_campaign sha256 refuses init_campaign true (campaign "mine")).0 ≡ blocked ("a" ∷ [])
unfolding upgrade_campaign lookup verdict classify hash_at recorded
run-edited = refl

upgrade_campaign-KeptBy_example :
    KeptBy false
      (campaign "old")
      (upgrade_campaign sha256 refuses init_campaign false (campaign "old"))
upgrade_campaign-KeptBy_example =
    upgrade_campaign-KeptBy sha256 refuses init_campaign false (campaign "old")

upgrade_campaign-keeps_edited_example :
    (upgrade_campaign sha256 refuses init_campaign true (campaign "mine")).1.tree "a" ≡ some "mine"
unfolding lookup recorded
upgrade_campaign-keeps_edited_example =
    upgrade_campaign-keeps_edited sha256 refuses init_campaign true (campaign "mine") lock "a"
      "mine" refl refl (ground (arith, eq_iff "a" manifest_path))
      (ground (arith, eq_iff "a" lock_path)) (ground (arith, eq_iff "old" "mine"))

keeps_names :
    (name adapter : String) (d : Desired)
    → init_campaign name adapter ≡ some d
    → IsPrepared sha256 d
      × (d.manifest ≡ record { campaign_name = some name; adapter = some adapter })
unfolding hash_at
keeps_names name adapter d e =
    subst
      (λ (x : Desired).
        IsPrepared sha256 x
        × (x.manifest ≡ record { campaign_name = some name; adapter = some adapter }))
      (some-injective _ _ e) ((refl, tt), refl)

upgrade_campaign_twice_example :
    let c' = (upgrade_campaign sha256 refuses init_campaign true (campaign "old")).1 in
    upgrade_campaign sha256 refuses init_campaign false c' ≡ (already_current, c')
unfolding upgrade_campaign lookup verdict classify hash_at recorded
upgrade_campaign_twice_example =
    upgrade_campaign_twice sha256 refuses init_campaign true false (campaign "old") ("a" ∷ []) true
      keeps_names refl
