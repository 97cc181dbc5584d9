-- ===== src/Upgrade.antt =====
-- warden_drydock/core/upgrade.py: `upgrade_campaign`. A campaign directory is a function from
-- relative paths to file contents, the two metadata files among them, beside what `_read_json` reads
-- in these two. `sha256` (hashlib) and `init_campaign` (core/generator.py, which fills the temporary
-- directory) are parameters. So is `refuses`: whether the file system raises when the parents of a
-- path are made and a file is copied there, such as for a file at a parent's place. A copy that raises
-- writes nothing, and a copy that does not puts the text at the path: a directory that stands at a
-- managed path, into which `copy2` would copy, is not modelled.
mod Cases
pub mod Copies
mod Plan
pub mod Safety
pub mod Rerun
mod Tests
use Prim.Native.Char.{code}
use warden_drydock.Prelude.{
  ℕ, String, ◌≡◌, Bool, true, false, not, ◌&&◌, ◌||◌, Option, none, some, List, [], ◌∷◌, leb, ◌==◌,
  contains, if◌then◌else◌, nat_eq, string_eq, option_eq, list_eq,
}
use warden_drydock.Prelude.Dict.{Dict, lookup}

-- A file's contents are read as one text.
abbrev pub Tree : Type 0
Tree = String → Option String

pub update : Tree → String → Option String → Tree
update t p c q = if p == q then c else t q

-- An entry of `files` in the lock on disk: an object with or without "sha256", or another value.
pub data LockEntry : Type 0 where
  object : Option String → LockEntry
  not_object : LockEntry

pub record Lock : Type 0 where
  pub schema_version : Option ℕ
  pub framework_version : Option String
  pub adapter_version : Option String
  pub files : Dict String LockEntry

pub record Manifest : Type 0 where
  pub campaign_name : Option String
  pub adapter : Option String

-- `manifest` and `lock` are what `tree` has at the two metadata paths, decoded; `none` is a file that
-- `_read_json` cannot read. No lock lists these two paths.
pub record Campaign : Type 0 where
  pub tree : Tree
  pub manifest : Option Manifest
  pub lock : Option Lock

-- What `_write_lock` records of each file.
pub record LockRecord : Type 0 where
  pub ownership : String
  pub sha256 : String

-- The directory that `init_campaign` has just filled.
pub record Desired : Type 0 where
  pub tree : Tree
  pub manifest : Manifest
  pub framework_version : String
  pub adapter_version : String
  pub files : Dict String LockRecord

abbrev pub managed_ownership : List String
managed_ownership = "framework" ∷ "adapter" ∷ "shared" ∷ []

-- The characters that `str.strip` removes.
is_space : ℕ → Bool
is_space c =
    (leb 9 c && leb c 13)
    || (leb 28 c && leb c 32)
    || contains c (133 ∷ 160 ∷ 5760 ∷ [])
    || (leb 8192 c && leb c 8202)
    || contains c (8232 ∷ 8233 ∷ 8239 ∷ 8287 ∷ 12288 ∷ [])

-- `not name.strip()`
pub is_blank : String → Bool
unfolding is_space
is_blank String.[] = true
is_blank (String.◌∷◌ c s) = is_space (code c) && is_blank s

-- What stops a copy.
pub data CopyFailure : Type 0 where
  missing_source copy_refused : CopyFailure

pub data Failure : Type 0 where
  unreadable_manifest unreadable_lock unsupported_schema missing_name missing_adapter : Failure
  init_failed : Failure
  not_copied : CopyFailure → Failure

-- How a run ends: `blocked` is the exit code 1, and `failed` an exception.
pub data Report : Type 0 where
  failed : Failure → Report
  blocked : List String → Report
  already_current : Report
  previewed applied : List String → Bool → Report

pub data Verdict : Type 0 where
  skip change conflict : Verdict

-- The tests of the loop body on the three hashes of one managed file.
pub classify : Option String → String → Option String → Verdict
classify current desired old =
    if current == some desired
    then skip
    else if old == some desired && not (current == none)
    then skip
    else if old == none
    then (if current == none then change else conflict)
    else if current == none || current == old
    then change
    else conflict

-- `old.get("sha256") if isinstance(old, dict) else None`
pub recorded : Option LockEntry → Option String
recorded none = none
recorded (some not_object) = none
recorded (some (object digest)) = digest

pub push : Verdict → String → List String × List String → List String × List String
push skip p (changes, conflicts) = (changes, conflicts)
push change p (changes, conflicts) = (p ∷ changes, conflicts)
push conflict p (changes, conflicts) = (changes, p ∷ conflicts)

abbrev pub manifest_path : String
manifest_path = ".drydock.json"

abbrev pub lock_path : String
lock_path = ".drydock-lock.json"

-- Whether the copying went on to its end, or what stopped it.
pub data Copied : Type 0 where
  complete : Copied
  stopped : CopyFailure → Copied

-- One copy out of the prepared directory.
pub copy_one : (Tree → String → Bool) → Tree → String → Tree → Copied × Tree
copy_one refuses source p t = if refuses t p then (stopped copy_refused, t) else elim (source p) [
  | none ↦ (stopped missing_source, t)
  | some text ↦ (complete, update t p (some text))
]

pub and_then : Copied × Tree → (Tree → Copied × Tree) → Copied × Tree
and_then (complete, t) more = more t
and_then (stopped f, t) more = (stopped f, t)

-- The loop over the changes; it stops with an exception at the first copy that raises.
pub copy_all : (Tree → String → Bool) → Tree → List String → Tree → Copied × Tree
unfolding copy_one and_then
copy_all refuses source [] t = (complete, t)
copy_all refuses source (p ∷ ps) t =
    and_then (copy_one refuses source p t) (copy_all refuses source ps)

-- The lock that `_write_lock` writes, read back.
pub written_entry : LockRecord → LockEntry
written_entry r = object (some r.sha256)

pub written_files : Dict String LockRecord → Dict String LockEntry
unfolding written_entry
written_files [] = []
written_files ((p, r) ∷ files) = (p, written_entry r) ∷ written_files files

pub written_lock : Desired → Lock
unfolding written_files
written_lock d = record {
  schema_version = some 1;
  framework_version = some d.framework_version;
  adapter_version = some d.adapter_version;
  files = written_files d.files;
}

module _ (sha256 : String → String) where
  -- `_hash`
  pub hash_at : Tree → String → Option String
  hash_at t p = elim (t p) [ none ↦ none | some text ↦ some (sha256 text) ]

  -- The verdict on one file of the desired lock; a file that is not managed is passed over.
  pub verdict : Tree → Dict String LockEntry → String → LockRecord → Verdict
  verdict t old p r =
      if contains r.ownership managed_ownership
      then classify (hash_at t p) r.sha256 (recorded (lookup p old))
      else skip

  pub plan : Tree → Dict String LockEntry → Dict String LockRecord → List String × List String
  unfolding push
  plan t old [] = ([], [])
  plan t old ((p, r) ∷ files) = push (verdict t old p r) p (plan t old files)

  pub metadata_changed : Lock → Desired → Bool
  metadata_changed l d =
      not (l.framework_version == some d.framework_version)
      || not (l.adapter_version == some d.adapter_version)

module _ (refuses : Tree → String → Bool) where
  pub write_lock : Campaign → Desired → Report → Copied × Tree → Report × Campaign
  unfolding written_lock
  write_lock c d report (stopped f, t) = (failed (not_copied f), record c { tree = t })
  write_lock c d report (complete, t) =
      (report, record c { tree = t; lock = some (written_lock d) })

  pub write_manifest : Campaign → Desired → Report → Copied × Tree → Report × Campaign
  unfolding write_lock copy_one
  write_manifest c d report (stopped f, t) = (failed (not_copied f), record c { tree = t })
  write_manifest c d report (complete, t) =
      write_lock (record c { tree = t; manifest = some d.manifest }) d report
        (copy_one refuses d.tree lock_path t)

  pub write_changes : Campaign → Desired → Report → Copied × Tree → Report × Campaign
  unfolding write_manifest copy_one
  write_changes c d report (stopped f, t) = (failed (not_copied f), record c { tree = t })
  write_changes c d report (complete, t) =
      write_manifest c d report (copy_one refuses d.tree manifest_path t)

  -- The copies of the changed files, of the manifest and of the lock, in this order.
  pub write : Campaign → Desired → List String → Bool → Report × Campaign
  unfolding copy_all write_changes
  write c d changes metadata =
      write_changes c d (applied changes metadata) (copy_all refuses d.tree changes c.tree)

module _ (sha256 : String → String) (refuses : Tree → String → Bool) where
  pub decide : Bool → Campaign → Desired → Bool → List String × List String → Report × Campaign
  unfolding write
  decide apply c d metadata (changes, []) =
      if changes == [] && not metadata
      then (already_current, c)
      else if not apply
      then (previewed changes metadata, c)
      else write refuses c d changes metadata
  decide apply c d metadata (changes, p ∷ conflicts) = (blocked (p ∷ conflicts), c)

  pub upgrade_to : Bool → Campaign → Lock → Desired → Report × Campaign
  unfolding decide plan metadata_changed
  upgrade_to apply c l d =
      decide apply c d (metadata_changed sha256 l d) (plan sha256 c.tree l.files d.files)

  pub prepared : Bool → Campaign → Lock → Option Desired → Report × Campaign
  unfolding upgrade_to
  prepared apply c l none = (failed init_failed, c)
  prepared apply c l (some d) = upgrade_to apply c l d

  module _ (init_campaign : String → String → Option Desired) where
    pub with_names : Bool → Campaign → Lock → Option String → Option String → Report × Campaign
    unfolding prepared is_blank
    with_names apply c l none adapter = (failed missing_name, c)
    with_names apply c l (some name) adapter =
        if is_blank name then (failed missing_name, c) else elim adapter [
          | none ↦ (failed missing_adapter, c)
          | some a ↦
              if a == ""
              then (failed missing_adapter, c)
              else prepared apply c l (init_campaign name a)
        ]

    pub read_lock : Bool → Campaign → Manifest → Option Lock → Report × Campaign
    unfolding with_names
    read_lock apply c m none = (failed unreadable_lock, c)
    read_lock apply c m (some l) =
        if l.schema_version == some 1
        then with_names apply c l m.campaign_name m.adapter
        else (failed unsupported_schema, c)

    pub read_manifest : Bool → Campaign → Option Manifest → Report × Campaign
    unfolding read_lock
    read_manifest apply c none = (failed unreadable_manifest, c)
    read_manifest apply c (some m) = read_lock apply c m c.lock

    pub upgrade_campaign : Bool → Campaign → Report × Campaign
    unfolding read_manifest
    upgrade_campaign apply c = read_manifest apply c c.manifest
