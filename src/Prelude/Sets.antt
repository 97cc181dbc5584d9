-- ===== src/Prelude/Sets.antt =====
-- A Python set as a list in which the order does not matter, read through `in`.
use mathlib.Core.Path.{◌≡◌, refl, ap}
use mathlib.Core.Bool.{Bool, true, false, not, ◌&&◌, ◌||◌}
use mathlib.Core.List.{List, [], ◌∷◌, ◌++◌}
use mathlib.Core.Logic.{inl, inr}
use native.Mathlib.Omega.{arith}
use warden_drydock.Prelude.Tests.{if◌then◌else◌, Bool-cases}
use warden_drydock.Prelude.Equality.{Eq}
use warden_drydock.Prelude.Lists.{filter, contains}
use warden_drydock.Prelude.Sort.{place, sort}

module _ {ℓ} {A : Type ℓ} ⦃e : Eq A⦄ where
  -- No entry stands twice.
  unfoldable pub distinct : List A → Bool
  distinct [] = true
  distinct (x ∷ xs) = not (contains x xs) && distinct xs

  -- `set(xs)`, each member once
  unfoldable pub dedup : List A → List A
  dedup [] = []
  dedup (x ∷ xs) = let rest = dedup xs in if contains x rest then rest else x ∷ rest

  pub contains-append :
      (a : A) (xs ys : List A) → contains a (xs ++ ys) ≡ (contains a xs || contains a ys)
  contains-append a [] ys = refl
  contains-append a (x ∷ xs) ys = ground (arith, contains-append a xs ys)

  pub contains-filter :
      (p : A → Bool) (a : A) (xs : List A) → contains a (filter p xs) ≡ (contains a xs && p a)
  unfolding filter
  contains-filter p a [] = refl
  contains-filter p a (x ∷ xs) = elim (Bool-cases (e.beq a x)) [
    | inl same ↦
        let q : p a ≡ p x = ap p ((e.beq_iff a x).0 same) in
        ground (arith, contains-filter p a xs, q)
    | inr other ↦ ground (arith, contains-filter p a xs)
  ]

  pub contains-dedup : (a : A) (xs : List A) → contains a (dedup xs) ≡ contains a xs
  unfolding dedup
  contains-dedup a [] = refl
  contains-dedup a (x ∷ xs) =
      ground (arith, contains-dedup a xs, contains-dedup x xs, e.beq_iff a x)

  pub distinct-dedup : (xs : List A) → distinct (dedup xs) ≡ true
  unfolding distinct dedup
  distinct-dedup [] = refl
  distinct-dedup (x ∷ xs) = ground (arith, distinct-dedup xs)

  pub distinct-filter :
      (p : A → Bool) (xs : List A) → distinct xs ≡ true → distinct (filter p xs) ≡ true
  unfolding distinct filter
  distinct-filter p [] h = refl
  distinct-filter p (x ∷ xs) h = ground (arith, distinct-filter p xs, contains-filter p x xs)

  pub distinct-append :
      (xs ys : List A)
      → distinct xs ≡ true
      → distinct ys ≡ true
      → ((a : A) → contains a ys ≡ true → contains a xs ≡ false)
      → distinct (xs ++ ys) ≡ true
  unfolding distinct
  distinct-append [] ys h k apart = k
  distinct-append (x ∷ xs) ys h k apart =
      let rest : distinct (xs ++ ys) ≡ true =
        distinct-append xs ys (ground (arith, h)) k (λ a m. ground (arith, apart a m)) in
      let out : contains x ys ≡ false = elim (Bool-cases (contains x ys)) [
        | inl inside ↦ ground (arith, apart x inside, e.beq_iff x x)
        | inr outside ↦ outside
      ] in
      ground (arith, h, rest, out, contains-append x xs ys)

module _ {A : Type 0} ⦃e : Eq A⦄ (le : A → A → Bool) where
  pub contains-place :
      (a x : A) (ys : List A) → contains a (place le x ys) ≡ (e.beq a x || contains a ys)
  unfolding place
  contains-place a x [] = refl
  contains-place a x (y ∷ ys) = ground (arith, contains-place a x ys)

  pub contains-sort : (a : A) (xs : List A) → contains a (sort le xs) ≡ contains a xs
  unfolding sort
  contains-sort a [] = refl
  contains-sort a (x ∷ xs) = rw (contains-place a x (sort le xs), contains-sort a xs) refl

  distinct-place :
      (x : A) (ys : List A)
      → contains x ys ≡ false
      → distinct ys ≡ true
      → distinct (place le x ys) ≡ true
  unfolding place distinct
  distinct-place x [] h d = refl
  distinct-place x (y ∷ ys) h d =
      ground (arith, distinct-place x ys, contains-place y x ys, e.beq_iff x y, e.beq_iff y x)

  pub distinct-sort : (xs : List A) → distinct xs ≡ true → distinct (sort le xs) ≡ true
  unfolding sort distinct
  distinct-sort [] h = refl
  distinct-sort (x ∷ xs) h =
      ground (arith, distinct-sort xs, distinct-place x (sort le xs), contains-sort x xs)
