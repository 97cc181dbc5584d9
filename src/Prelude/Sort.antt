-- ===== src/Prelude/Sort.antt =====
-- `sorted` with a key: stable insertion into a sorted rest, for a test `le` of the keys.
use mathlib.Core.Path.{◌≡◌, refl}
use mathlib.Core.Logic.{◌⊎◌, inl, inr, ◌↔◌}
use mathlib.Core.Bool.{Bool, true, false}
use mathlib.Core.List.{List, [], ◌∷◌}
use warden_drydock.Prelude.Tests.{if◌then◌else◌, Bool-cases}
use warden_drydock.Prelude.Lists.{All, All-map, Mem}

module _ {A : Type 0} (le : A → A → Bool) where
  unfoldable pub place : A → List A → List A
  place x [] = x ∷ []
  place x (y ∷ ys) = if le x y then x ∷ y ∷ ys else y ∷ place x ys

  unfoldable pub sort : List A → List A
  unfolding place
  sort [] = []
  sort (x ∷ xs) = place x (sort xs)

  -- Every entry is below all that follow it.
  abbrev pub IsSorted : List A → Type 0
  IsSorted [] = Unit
  IsSorted (x ∷ xs) = All (λ y. le x y ≡ true) xs × IsSorted xs

  pub All-place : (P : A → Type 0) (x : A) (ys : List A) → P x → All P ys → All P (place x ys)
  unfolding place
  All-place P x [] p h = (p, tt)
  All-place P x (y ∷ ys) p h = elim (Bool-cases (le x y)) [
    | inl e ↦ rw e (p, h)
    | inr e ↦ rw e (h.0, All-place P x ys p h.1)
  ]

  pub All-sort : (P : A → Type 0) (xs : List A) → All P xs → All P (sort xs)
  unfolding sort
  All-sort P [] h = tt
  All-sort P (x ∷ xs) h = All-place P x (sort xs) h.0 (All-sort P xs h.1)

  pub place_first : (x : A) (ys : List A) → All (λ y. le x y ≡ true) ys → place x ys ≡ x ∷ ys
  unfolding place
  place_first x [] h = refl
  place_first x (y ∷ ys) h = rw h.0

  -- A sorted list is left as it is.
  pub sort_of_sorted : (xs : List A) → IsSorted xs → sort xs ≡ xs
  unfolding sort
  sort_of_sorted [] h = refl
  sort_of_sorted (x ∷ xs) h = rw (sort_of_sorted xs h.1) (place_first x xs h.0)

  pub mem-place : (a x : A) (ys : List A) → Mem a (place x ys) → (a ≡ x) ⊎ Mem a ys
  unfolding place
  mem-place a x [] m = m
  mem-place a x (y ∷ ys) m = elim (Bool-cases (le x y)) [
    | inl e ↦ rw e at m
    | inr e ↦ elim (let m' : Mem a (y ∷ place x ys) = rw e at m in m') [
      | inl same ↦ inr (inl same)
      | inr k ↦ elim (mem-place a x ys k) [ inl same ↦ inl same | inr n ↦ inr (inr n) ]
    ]
  ]

  pub place-mem : (a x : A) (ys : List A) → (a ≡ x) ⊎ Mem a ys → Mem a (place x ys)
  unfolding place
  place-mem a x [] m = m
  place-mem a x (y ∷ ys) m = elim (Bool-cases (le x y)) [
    | inl e ↦ rw e m
    | inr e ↦ rw e (elim m [
      | inl same ↦ inr (place-mem a x ys (inl same))
      | inr n ↦ elim n [ inl same ↦ inl same | inr k ↦ inr (place-mem a x ys (inr k)) ]
    ])
  ]

  -- Sorting keeps the members.
  pub mem-sort : (a : A) (xs : List A) → Mem a (sort xs) ↔ Mem a xs
  unfolding sort
  mem-sort a [] = ((λ m. m), (λ m. m))
  mem-sort a (x ∷ xs) = (
    (λ m. elim (mem-place a x (sort xs) m) [
      | inl same ↦ inl same
      | inr n ↦ inr ((mem-sort a xs).0 n)
    ]),
    (λ m.
        place-mem a x (sort xs)
          (elim m [ inl same ↦ inl same | inr n ↦ inr ((mem-sort a xs).1 n) ])),
  )

  module _ (total : (a b : A) → le a b ≡ false → le b a ≡ true)
      (transitive : (a b c : A) → le a b ≡ true → le b c ≡ true → le a c ≡ true) where
    pub place-IsSorted : (x : A) (ys : List A) → IsSorted ys → IsSorted (place x ys)
    unfolding place
    place-IsSorted x [] h = (tt, tt)
    place-IsSorted x (y ∷ ys) h = elim (Bool-cases (le x y)) [
      | inl e ↦ rw e ((e, All-map (λ z k. transitive x y z e k) ys h.0), h)
      | inr e ↦
          rw e (All-place (λ z. le y z ≡ true) x ys (total x y e) h.0, place-IsSorted x ys h.1)
    ]

    pub sort-IsSorted : (xs : List A) → IsSorted (sort xs)
    unfolding sort
    sort-IsSorted [] = tt
    sort-IsSorted (x ∷ xs) = place-IsSorted x (sort xs) (sort-IsSorted xs)
