-- ===== src/Prelude/Lists.antt =====
-- Lists measured by native numbers, predicates on lists, and the tests that Python writes as
-- `in`, `any` and `all`.
use Prim.Native.Nat.{ℕ, suc, ◌+◌}
use mathlib.Core.Path.{◌≡◌, ◌∙◌, sym, ap, refl}
use mathlib.Core.Logic.{◌⊎◌, inl, inr}
use mathlib.Core.Bool.{Bool, true, false, ◌&&◌, ◌||◌, false≢true}
use mathlib.Core.List.{List, [], ◌∷◌, ◌++◌}
use native.Mathlib.Omega.{arith}
use warden_drydock.Prelude.Tests.{if◌then◌else◌, Bool-cases}
use warden_drydock.Prelude.Equality.{Eq}

module _ {ℓ} {A : Type ℓ} where
  abbrev pub length : List A → ℕ
  length [] = 0
  length (x ∷ xs) = suc (length xs)

  pub length-append : (xs ys : List A) → length (xs ++ ys) ≡ length xs + length ys
  length-append [] ys = omega arith
  length-append (x ∷ xs) ys = omega (arith, length-append xs ys)

  abbrev pub All {κ} : (A → Type κ) → List A → Type κ
  All P [] = Unit
  All P (x ∷ xs) = P x × All P xs

  pub All-append {κ} : (P : A → Type κ) (xs ys : List A) → All P xs → All P ys → All P (xs ++ ys)
  All-append P [] ys hx hy = hy
  All-append P (x ∷ xs) ys hx hy = (hx.0, All-append P xs ys hx.1 hy)

  pub All-map {κ μ} :
      {P : A → Type κ} {Q : A → Type μ} (f : (a : A) → P a → Q a) (xs : List A)
      → All P xs
      → All Q xs
  All-map f [] h = tt
  All-map f (x ∷ xs) h = (f x h.0, All-map f xs h.1)

  -- `[x for x in xs if p(x)]`
  unfoldable pub filter : (A → Bool) → List A → List A
  filter p [] = []
  filter p (x ∷ xs) = let rest = filter p xs in if p x then x ∷ rest else rest

  abbrev pub any : (A → Bool) → List A → Bool
  any p [] = false
  any p (x ∷ xs) = p x || any p xs

  abbrev pub all : (A → Bool) → List A → Bool
  all p [] = true
  all p (x ∷ xs) = p x && all p xs

-- Membership with the place kept.
abbrev pub Mem : {A : Type 0} → A → List A → Type 0
Mem a [] = ⊥
Mem a (x ∷ xs) = (a ≡ x) ⊎ Mem a xs

pub All-Mem : {A : Type 0} (P : A → Type 0) (a : A) (xs : List A) → All P xs → Mem a xs → P a
All-Mem P a [] h m = absurd m
All-Mem P a (x ∷ xs) h (inl e) = rw e h.0
All-Mem P a (x ∷ xs) h (inr m) = All-Mem P a xs h.1 m

pub Mem-append_left : {A : Type 0} (a : A) (xs ys : List A) → Mem a xs → Mem a (xs ++ ys)
Mem-append_left a [] ys m = absurd m
Mem-append_left a (x ∷ xs) ys (inl e) = inl e
Mem-append_left a (x ∷ xs) ys (inr m) = inr (Mem-append_left a xs ys m)

pub Mem-append_right : {A : Type 0} (a : A) (xs ys : List A) → Mem a ys → Mem a (xs ++ ys)
Mem-append_right a [] ys m = m
Mem-append_right a (x ∷ xs) ys m = inr (Mem-append_right a xs ys m)

pub Mem-append : {A : Type 0} (a : A) (xs ys : List A) → Mem a (xs ++ ys) → Mem a xs ⊎ Mem a ys
Mem-append a [] ys m = inr m
Mem-append a (x ∷ xs) ys (inl e) = inl (inl e)
Mem-append a (x ∷ xs) ys (inr m) = elim (Mem-append a xs ys m) [
  | inl here ↦ inl (inr here)
  | inr there ↦ inr there
]

module _ {ℓ} {A : Type ℓ} ⦃e : Eq A⦄ where
  -- `a in xs`
  abbrev pub contains : A → List A → Bool
  contains a [] = false
  contains a (x ∷ xs) = e.beq a x || contains a xs

pub Mem_or_not : {A : Type 0} ⦃e : Eq A⦄ (a : A) (xs : List A) → Mem a xs ⊎ (¬ Mem a xs)
Mem_or_not a [] = inr (λ m. m)
Mem_or_not ⦃e⦄ a (x ∷ xs) = elim (Bool-cases (e.beq a x)) [
  | inl same ↦ inl (inl ((e.beq_iff a x).0 same))
  | inr other ↦ elim (Mem_or_not a xs) [
    | inl m ↦ inl (inr m)
    | inr n ↦
        inr (elim [ inl same ↦ false≢true (sym other ∙ (e.beq_iff a x).1 same) | inr m ↦ n m ])
  ]
]

pub mem-filter :
    {A : Type 0} (p : A → Bool) (a : A) (xs : List A)
    → Mem a (filter p xs)
    → Mem a xs × (p a ≡ true)
unfolding filter
mem-filter p a [] m = absurd m
mem-filter p a (x ∷ xs) m = elim (Bool-cases (p x)) [
  | inl e ↦ elim (let m' : Mem a (x ∷ filter p xs) = rw e at m in m') [
    | inl same ↦ (inl same, ap p same ∙ e)
    | inr n ↦ (inr (mem-filter p a xs n).0, (mem-filter p a xs n).1)
  ]
  | inr e ↦
      let m' : Mem a (filter p xs) = rw e at m in
      (inr (mem-filter p a xs m').0, (mem-filter p a xs m').1)
]

pub append_nil : {A : Type 0} (xs : List A) → xs ++ [] ≡ xs
append_nil [] = refl
append_nil (x ∷ xs) = ap (λ r. x ∷ r) (append_nil xs)

pub append_assoc : {A : Type 0} (xs ys zs : List A) → (xs ++ ys) ++ zs ≡ xs ++ (ys ++ zs)
append_assoc [] ys zs = refl
append_assoc (x ∷ xs) ys zs = ap (λ r. x ∷ r) (append_assoc xs ys zs)
