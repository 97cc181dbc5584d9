-- ===== src/Atlas/History/Reported.antt =====
-- What the history of a revision reports.
use package.text.Mathlib.TextEquality.{eq_iff}
use warden_drydock.Prelude.{
  String, ◌≡◌, refl, ◌∙◌, ap, true, List, [], ◌∷◌, ◌++◌, Option, none, some, inl, inr, ◌↔◌, ◌||◌,
  ◌==◌, string_eq, option_eq, contains, All, Mem, Mem-append, Mem-append_left, Mem-append_right,
  Bool-cases, Option-cases, arith,
}
use warden_drydock.Prelude.Dict.{Dict, lookup, keys}
use warden_drydock.Prelude.Sets.{dedup, contains-append, contains-dedup, contains-sort}
use warden_drydock.Prelude.Sort.{sort, mem-sort}
use warden_drydock.Prelude.Text.{str_leb}
use warden_drydock.Prelude.Result.{ok, err, ◌>>=◌, bind-eq-ok}
use warden_drydock.Revisions.Models.{value_error, SnapshotManifest}
use warden_drydock.Atlas.Models.{
  AtlasRecord, AtlasHistoryChange, HistoryChangeKind, is_valid_change, change_leb,
}
use warden_drydock.Atlas.History.Differences.{Difference, changes_of-Difference}
use warden_drydock.Atlas.History.{
  by_record, added_change, removed_change, kept_change, kept_changes, kinds_of, removal, changes_of,
  checked, all_changes, record_ids, history_changes,
}

-- The constructors change nothing, and pass only what is valid.
checked-eq-ok :
    (cs ds : List AtlasHistoryChange)
    → checked cs ≡ ok ds
    → (ds ≡ cs) × All (λ c. is_valid_change c ≡ true) ds
unfolding checked
checked-eq-ok [] ds h = let q : ds ≡ [] = cc (h) in (q, rw q tt)
checked-eq-ok (c ∷ cs) ds h = elim (Bool-cases (is_valid_change c)) [
  | inl e ↦
      let h' : (checked cs >>= λ es. ok (c ∷ es)) ≡ ok ds = rw e at h in
      let (es, e1, h1) = bind-eq-ok (checked cs) _ _ h' in
      let (same, valid) = checked-eq-ok cs es e1 in
      let q : ds ≡ c ∷ es = cc (h1) in (q ∙ ap (λ r. c ∷ r) same, rw q (e, valid))
  | inr e ↦ let h' : err value_error ≡ ok ds = rw e at h in absurd (cc (h'))
]

-- The changes found for a record carry its ID.
kept_changes-id :
    (m : SnapshotManifest) (id : String) (b a : AtlasRecord) (ks : List HistoryChangeKind)
    (c : AtlasHistoryChange)
    → Mem c (kept_changes m id b a ks)
    → c.record_id ≡ id
unfolding kept_changes kept_change
kept_changes-id m id b a [] c h = absurd h
kept_changes-id m id b a (k ∷ ks) c (inl e) = ap (λ (x : AtlasHistoryChange). x.record_id) e
kept_changes-id m id b a (k ∷ ks) c (inr h) = kept_changes-id m id b a ks c h

one_id :
    (d c : AtlasHistoryChange) (id : String) → d.record_id ≡ id → Mem c (d ∷ []) → c.record_id ≡ id
one_id d c id at (inl e) = ap (λ (x : AtlasHistoryChange). x.record_id) e ∙ at
one_id d c id at (inr h) = absurd h

removal_id :
    (parent : Option String) (id : String) (b : AtlasRecord) (found : List AtlasHistoryChange)
    (c : AtlasHistoryChange)
    → removal parent id b ≡ ok found
    → Mem c found
    → c.record_id ≡ id
unfolding removal removed_change
removal_id none id b found c h i = absurd (cc (h))
removal_id (some p) id b found c h i =
    let q : found ≡ removed_change p id b ∷ [] = cc (h) in
    one_id (removed_change p id b) c id refl (rw q at i)

changes_of-id :
    (m : SnapshotManifest) (id : String) (before after : Option AtlasRecord)
    (found : List AtlasHistoryChange) (c : AtlasHistoryChange)
    → changes_of m id before after ≡ ok found
    → Mem c found
    → c.record_id ≡ id
unfolding changes_of added_change
changes_of-id m id none none found c h i = let q : found ≡ [] = cc (h) in absurd (rw q at i)
changes_of-id m id none (some a) found c h i =
    let q : found ≡ added_change m id a ∷ [] = cc (h) in
    one_id (added_change m id a) c id refl (rw q at i)
changes_of-id m id (some b) none found c h i = removal_id m.parent_revision id b found c h i
changes_of-id m id (some b) (some a) found c h i =
    let q : found ≡ kept_changes m id b a (kinds_of b a) = cc (h) in
    kept_changes-id m id b a (kinds_of b a) c (rw q at i)

nothing_changed :
    (m : SnapshotManifest) (id : String) (found : List AtlasHistoryChange) (c : AtlasHistoryChange)
    → changes_of m id none none ≡ ok found
    → Mem c found
    → ⊥
unfolding changes_of
nothing_changed m id found c h i = let q : found ≡ [] = cc (h) in rw q at i

contains-keys :
    (k : String) (d : Dict String AtlasRecord) (r : AtlasRecord)
    → lookup k d ≡ some r
    → contains k (keys d) ≡ true
unfolding lookup keys
contains-keys k [] r h = absurd (cc)
contains-keys k ((j, v) ∷ d) r h = ground (arith, h, contains-keys k d r, eq_iff j k, eq_iff k j)

module _ (m : SnapshotManifest) (previous current : Dict String AtlasRecord) where
  -- The change is one of those of the record that it names.
  abbrev IsChange : AtlasHistoryChange → Type 0
  IsChange c =
      (found : List AtlasHistoryChange) × (changes_of m c.record_id (lookup c.record_id previous)
          (lookup c.record_id current)
        ≡ ok found)
      × Mem c found

  listed :
      (id : String)
      → contains id (record_ids previous current)
        ≡ (contains id (keys current) || contains id (keys previous))
  unfolding record_ids
  listed id =
      contains-sort str_leb id (dedup (keys current ++ keys previous))
      ∙ contains-dedup id (keys current ++ keys previous)
      ∙ contains-append id (keys current) (keys previous)

  -- A record that has a change is in one of the two revisions.
  listed_change :
      (c : AtlasHistoryChange)
      → IsChange c
      → contains c.record_id (record_ids previous current) ≡ true
  listed_change c (found, e, i) = elim (Option-cases (lookup c.record_id current)) [
    | inr (r, here) ↦ ground (arith, listed c.record_id, contains-keys c.record_id current r here)
    | inl gone ↦ elim (Option-cases (lookup c.record_id previous)) [
      | inr (r, there) ↦
          ground (arith, listed c.record_id, contains-keys c.record_id previous r there)
      | inl never ↦ absurd (nothing_changed m c.record_id found c (rw (never, gone) at e) i)
    ]
  ]

  all_changes_sound :
      (ids : List String) (cs : List AtlasHistoryChange) (c : AtlasHistoryChange)
      → all_changes m previous current ids ≡ ok cs
      → Mem c cs
      → IsChange c
  unfolding all_changes
  all_changes_sound [] cs c h i = let q : cs ≡ [] = cc (h) in absurd (rw q at i)
  all_changes_sound (id ∷ ids) cs c h i =
      let (found, e1, h1) =
        bind-eq-ok (changes_of m id (lookup id previous) (lookup id current)) _ _ h in
      let (here, e2, h2) = bind-eq-ok (checked found) _ _ h1 in
      let (rest, e3, h3) = bind-eq-ok (all_changes m previous current ids) _ _ h2 in
      let (same, _) = checked-eq-ok found here e2 in
      let q : cs ≡ found ++ rest = cc (h3, same) in
      elim (Mem-append c found rest (rw q at i)) [
        | inl now ↦
            let at : c.record_id ≡ id =
              changes_of-id m id (lookup id previous) (lookup id current) found c e1 now in
            (found, rw at e1, now)
        | inr later ↦ all_changes_sound ids rest c e3 later
      ]

  all_changes_full :
      (ids : List String) (cs : List AtlasHistoryChange) (c : AtlasHistoryChange)
      → all_changes m previous current ids ≡ ok cs
      → contains c.record_id ids ≡ true
      → IsChange c
      → Mem c cs
  unfolding all_changes
  all_changes_full [] cs c h i s = absurd (cc (i))
  all_changes_full (id ∷ ids) cs c h i s =
      let (found, e1, h1) =
        bind-eq-ok (changes_of m id (lookup id previous) (lookup id current)) _ _ h in
      let (here, e2, h2) = bind-eq-ok (checked found) _ _ h1 in
      let (rest, e3, h3) = bind-eq-ok (all_changes m previous current ids) _ _ h2 in
      let (same, _) = checked-eq-ok found here e2 in
      let q : cs ≡ found ++ rest = cc (h3, same) in
      rw q (elim (Bool-cases (c.record_id == id)) [
        | inl own ↦
            let at : c.record_id ≡ id = (eq_iff c.record_id id).0 own in
            let e : changes_of m id (lookup id previous) (lookup id current) ≡ ok s.0 =
              rw at at s.1 in
            let both : s.0 ≡ found = cc (e, e1) in Mem-append_left c found rest (rw both at s.2)
        | inr other ↦
            Mem-append_right c found rest
              (all_changes_full ids rest c e3 (ground (arith, i, other)) s)
      ])

pub history_changes-Difference :
    (m : SnapshotManifest) (records parent_records : List AtlasRecord)
    (cs : List AtlasHistoryChange) (c : AtlasHistoryChange)
    → history_changes m records parent_records ≡ ok cs
    → Mem c cs
      ↔ Difference m c.record_id
          (lookup c.record_id (by_record parent_records []))
          (lookup c.record_id (by_record records []))
          c
unfolding history_changes
history_changes-Difference m records parent_records cs c h =
    let previous = by_record parent_records [] in
    let current = by_record records [] in
    let (ds, e1, h1) =
      bind-eq-ok (all_changes m previous current (record_ids previous current)) _ _ h in
    let q : cs ≡ sort change_leb ds = cc (h1) in
    let (seen, shown) =
      changes_of-Difference m c.record_id (lookup c.record_id previous) (lookup c.record_id current)
        c in
    (
      (λ i. seen (
          all_changes_sound m previous current (record_ids previous current) ds c e1
            ((mem-sort change_leb c ds).0 (rw q at i)))),
      (λ d. rw q (
          (mem-sort change_leb c ds).1 (
            all_changes_full m previous current (record_ids previous current) ds c e1
              (listed_change m previous current c (shown d)) (shown d)))),
    )
