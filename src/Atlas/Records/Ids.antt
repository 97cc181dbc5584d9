-- ===== src/Atlas/Records/Ids.antt =====
-- The IDs of a list of records when it is sorted or grows.
use package.text.Mathlib.TextEquality.{eq_iff}
use warden_drydock.Prelude.{
  String, ◌≡◌, refl, ap, Bool, true, false, List, [], ◌∷◌, ◌++◌, ◌||◌, ◌==◌, string_eq, contains,
  arith,
}
use warden_drydock.Prelude.Sets.{distinct, distinct-append}
use warden_drydock.Prelude.Sort.{place, sort}
use warden_drydock.Atlas.Models.{AtlasRecord}
use warden_drydock.Atlas.Records.{ids_of}

pub contains-place_ids :
    (le : AtlasRecord → AtlasRecord → Bool) (a : String) (r : AtlasRecord) (rs : List AtlasRecord)
    → contains a (ids_of (place le r rs)) ≡ (a == r.record_id || contains a (ids_of rs))
unfolding place
contains-place_ids le a r [] = refl
contains-place_ids le a r (s ∷ rs) = ground (arith, contains-place_ids le a r rs)

pub contains-sort_ids :
    (le : AtlasRecord → AtlasRecord → Bool) (a : String) (rs : List AtlasRecord)
    → contains a (ids_of (sort le rs)) ≡ contains a (ids_of rs)
unfolding sort
contains-sort_ids le a [] = refl
contains-sort_ids le a (r ∷ rs) =
    rw (contains-place_ids le a r (sort le rs), contains-sort_ids le a rs) refl

pub distinct-place_ids :
    (le : AtlasRecord → AtlasRecord → Bool) (r : AtlasRecord) (rs : List AtlasRecord)
    → contains r.record_id (ids_of rs) ≡ false
    → distinct (ids_of rs) ≡ true
    → distinct (ids_of (place le r rs)) ≡ true
unfolding place distinct
distinct-place_ids le r [] h d = refl
distinct-place_ids le r (s ∷ rs) h d = ground (
  arith,
  distinct-place_ids le r rs,
  contains-place_ids le s.record_id r rs,
  eq_iff r.record_id s.record_id,
  eq_iff s.record_id r.record_id,
)

pub distinct-sort_ids :
    (le : AtlasRecord → AtlasRecord → Bool) (rs : List AtlasRecord)
    → distinct (ids_of rs) ≡ true
    → distinct (ids_of (sort le rs)) ≡ true
unfolding sort distinct
distinct-sort_ids le [] h = refl
distinct-sort_ids le (r ∷ rs) h = ground (
  arith,
  distinct-sort_ids le rs,
  distinct-place_ids le r (sort le rs),
  contains-sort_ids le r.record_id rs,
)

pub map-append_ids : (rs ss : List AtlasRecord) → ids_of (rs ++ ss) ≡ ids_of rs ++ ids_of ss
map-append_ids [] ss = refl
map-append_ids (r ∷ rs) ss = ap (λ x. r.record_id ∷ x) (map-append_ids rs ss)

pub distinct_snoc :
    (r : AtlasRecord) (rs : List AtlasRecord)
    → distinct (ids_of rs) ≡ true
    → contains r.record_id (ids_of rs) ≡ false
    → distinct (ids_of (rs ++ r ∷ [])) ≡ true
unfolding distinct
distinct_snoc r rs d h =
    rw (map-append_ids rs (r ∷ []))
      (distinct-append (ids_of rs) (r.record_id ∷ []) d refl (λ a m. absent a (ground (arith, m))))
  where
    absent : (a : String) → (a == r.record_id) ≡ true → contains a (ids_of rs) ≡ false
    absent a same = rw ((eq_iff a r.record_id).0 same) h
