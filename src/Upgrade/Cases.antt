-- ===== src/Upgrade/Cases.antt =====
-- How a run of `upgrade_campaign` is taken apart, and what one file's verdict says of its hashes.
use warden_drydock.Prelude.{
  String, ◌≡◌, refl, ap, Bool, false, Option, none, some, List, [], ◌∷◌, inl, inr, arith, Mem, ◌⊎◌,
  ◌≢◌, Bool-cases, ◌==◌, nat_eq, string_eq, option_eq,
}
use warden_drydock.Prelude.Dict.{Dict, lookup}
use text.Mathlib.TextEquality.{eq_iff}
use warden_drydock.Upgrade.{
  Tree, LockEntry, Lock, Manifest, Campaign, LockRecord, Desired, Failure, Report, failed, Verdict,
  skip, change, conflict, classify, recorded, push, update, hash_at, verdict, plan, upgrade_to,
  prepared, with_names, read_lock, read_manifest, upgrade_campaign, is_blank,
}

-- What a run that reaches the comparison has read.
pub record Comparison (init_campaign : String → String → Option Desired) (c : Campaign) (l : Lock)
    (d : Desired) : Type 0 where
  pub name : String
  pub adapter : String
  pub name_filled : is_blank name ≡ false
  pub adapter_filled : (adapter == "") ≡ false
  pub lock : c.lock ≡ some l
  pub prepared : init_campaign name adapter ≡ some d

module _ (sha256 : String → String) (refuses : Tree → String → Bool)
    (init_campaign : String → String → Option Desired) where
  module _ (P : Report × Campaign → Type 0) (apply : Bool) (c : Campaign)
      (fails : (f : Failure) → P (failed f, c))
      (compares : (l : Lock) (d : Desired)
        → Comparison init_campaign c l d
        → P (upgrade_to sha256 refuses apply c l d)) where
    prepared_cases :
        (l : Lock) (name a : String) (found : Option Desired)
        → c.lock ≡ some l
        → is_blank name ≡ false
        → (a == "") ≡ false
        → init_campaign name a ≡ found
        → P (prepared sha256 refuses apply c l found)
    unfolding prepared
    prepared_cases l name a none e filled given p = fails _
    prepared_cases l name a (some d) e filled given p = compares l d (record {
      name = name;
      adapter = a;
      name_filled = filled;
      adapter_filled = given;
      lock = e;
      prepared = p;
    })

    with_adapter_cases :
        (l : Lock) (name a : String)
        → c.lock ≡ some l
        → is_blank name ≡ false
        → P (with_names sha256 refuses init_campaign apply c l (some name) (some a))
    unfolding with_names
    with_adapter_cases l name a e filled = elim (Bool-cases (a == "")) [
      | inl empty ↦ rw (filled, empty) (fails _)
      | inr given ↦
          rw (filled, given) (prepared_cases l name a (init_campaign name a) e filled given refl)
    ]

    with_names_cases :
        (l : Lock) (name adapter : Option String)
        → c.lock ≡ some l
        → P (with_names sha256 refuses init_campaign apply c l name adapter)
    unfolding with_names
    with_names_cases l none adapter e = fails _
    with_names_cases l (some name) none e = elim (Bool-cases (is_blank name)) [
      | inl blank ↦ rw blank (fails _)
      | inr filled ↦ rw filled (fails _)
    ]
    with_names_cases l (some name) (some a) e = elim (Bool-cases (is_blank name)) [
      | inl blank ↦ rw blank (fails _)
      | inr filled ↦ with_adapter_cases l name a e filled
    ]

    read_lock_cases :
        (m : Manifest) (found : Option Lock)
        → c.lock ≡ found
        → P (read_lock sha256 refuses init_campaign apply c m found)
    unfolding read_lock
    read_lock_cases m none e = fails _
    read_lock_cases m (some l) e = elim (Bool-cases (l.schema_version == some 1)) [
      | inl known ↦ rw known (with_names_cases l m.campaign_name m.adapter e)
      | inr other ↦ rw other (fails _)
    ]

    read_manifest_cases :
        (found : Option Manifest) → P (read_manifest sha256 refuses init_campaign apply c found)
    unfolding read_manifest
    read_manifest_cases none = fails _
    read_manifest_cases (some m) = read_lock_cases m c.lock refl

    -- Every run fails and leaves the campaign alone, or compares it with a prepared directory.
    pub upgrade_cases : P (upgrade_campaign sha256 refuses init_campaign apply c)
    unfolding upgrade_campaign
    upgrade_cases = read_manifest_cases c.manifest

-- A run whose inputs are all as they should be comes to the comparison.
pub upgrade_campaign-compares :
    (sha256 : String → String) (refuses : Tree → String → Bool)
    (init_campaign : String → String → Option Desired) (apply : Bool) (c : Campaign) (l : Lock)
    (d : Desired) (name adapter : String)
    → c.manifest ≡ some (record { campaign_name = some name; adapter = some adapter })
    → c.lock ≡ some l
    → l.schema_version ≡ some 1
    → is_blank name ≡ false
    → (adapter == "") ≡ false
    → init_campaign name adapter ≡ some d
    → upgrade_campaign sha256 refuses init_campaign apply c ≡ upgrade_to sha256 refuses apply c l d
unfolding prepared with_names read_lock read_manifest upgrade_campaign
upgrade_campaign-compares sha256 refuses init_campaign apply c l d name adapter m k schema filled
      given p =
    rw (ap (read_manifest sha256 refuses init_campaign apply c) m) (
      rw (ap (read_lock sha256 refuses init_campaign apply c _) k) (
        rw (ap (λ v. v == some 1) schema, filled, given, ap (prepared sha256 refuses apply c l) p)))

pub hash_at-some :
    (sha256 : String → String) (t : Tree) (p text : String)
    → t p ≡ some text
    → hash_at sha256 t p ≡ some (sha256 text)
unfolding hash_at
hash_at-some sha256 t p text e = ground arith

classify-change :
    (current : Option String) (desired : String) (old : Option String) (h : String)
    → current ≡ some h
    → classify current desired old ≡ change
    → old ≡ some h
unfolding classify
classify-change none desired old h e k = cc
classify-change (some x) desired none h e k = ground (arith, eq_iff x desired)
classify-change (some x) desired (some y) h e k =
    ground (arith, eq_iff x desired, eq_iff y desired, eq_iff x y)

push-change :
    (v : Verdict) (q p : String) (a : List String × List String)
    → Mem p (push v q a).0
    → ((v ≡ change) × (p ≡ q)) ⊎ Mem p a.0
unfolding push
push-change skip q p a m = inr m
push-change change q p a (inl e) = inl (refl, e)
push-change change q p a (inr m) = inr m
push-change conflict q p a m = inr m

verdict-change :
    (sha256 : String → String) (t : Tree) (old : Dict String LockEntry) (p : String)
    (r : LockRecord) (h : String)
    → hash_at sha256 t p ≡ some h
    → verdict sha256 t old p r ≡ change
    → recorded (lookup p old) ≡ some h
unfolding verdict
verdict-change sha256 t old p r h e k =
    ground (arith, classify-change (hash_at sha256 t p) r.sha256 (recorded (lookup p old)) h)

-- A listed change of a file that exists is a file whose hash the lock records.
pub changes-recorded :
    (sha256 : String → String) (t : Tree) (old : Dict String LockEntry)
    (files : Dict String LockRecord) (p h : String)
    → hash_at sha256 t p ≡ some h
    → Mem p (plan sha256 t old files).0
    → recorded (lookup p old) ≡ some h
unfolding plan
changes-recorded sha256 t old [] p h e m = absurd m
changes-recorded sha256 t old ((q, r) ∷ files) p h e m =
    elim (push-change (verdict sha256 t old q r) q p (plan sha256 t old files) m) [
      | inl (k, same) ↦ rw same (verdict-change sha256 t old q r h (rw same at e) k)
      | inr rest ↦ changes-recorded sha256 t old files p h e rest
    ]

update-other : (t : Tree) (q p : String) (x : Option String) → p ≢ q → update t q x p ≡ t p
unfolding update
update-other t q p x h = ground (arith, eq_iff q p)
