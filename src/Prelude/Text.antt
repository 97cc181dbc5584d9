-- ===== src/Prelude/Text.antt =====
-- Texts as lists of code points, and the order that Python gives them.
use Prim.Native.Nat.{ℕ}
use Prim.Native.Char.{code}
use Prim.Native.String.{String}
use mathlib.Core.Path.{◌≡◌, refl}
use mathlib.Core.Bool.{Bool, true, false, ◌&&◌, ◌||◌}
use mathlib.Core.List.{List, [], ◌∷◌}
use native.Mathlib.Omega.{arith}
use text.Mathlib.TextEquality.{Char-path}
use warden_drydock.Prelude.Tests.{ltb, leb, nat_beq}

abbrev pub codes : String → List ℕ
codes String.[] = []
codes (String.◌∷◌ c s) = code c ∷ codes s

-- `xs <= ys` on code points
unfoldable pub codes_leb : List ℕ → List ℕ → Bool
codes_leb [] ys = true
codes_leb (x ∷ xs) [] = false
codes_leb (x ∷ xs) (y ∷ ys) = ltb x y || (nat_beq x y && codes_leb xs ys)

pub codes_leb_refl : (xs : List ℕ) → codes_leb xs xs ≡ true
unfolding codes_leb
codes_leb_refl [] = refl
codes_leb_refl (x ∷ xs) = ground (arith, codes_leb_refl xs)

pub codes_leb_trans :
    (xs ys zs : List ℕ) → codes_leb xs ys ≡ true → codes_leb ys zs ≡ true → codes_leb xs zs ≡ true
unfolding codes_leb
codes_leb_trans [] ys zs p q = refl
codes_leb_trans (x ∷ xs) [] zs p q = ground arith
codes_leb_trans (x ∷ xs) (y ∷ ys) [] p q = ground arith
codes_leb_trans (x ∷ xs) (y ∷ ys) (z ∷ zs) p q = ground (arith, codes_leb_trans xs ys zs)

pub codes_leb_total : (xs ys : List ℕ) → codes_leb xs ys ≡ false → codes_leb ys xs ≡ true
unfolding codes_leb
codes_leb_total [] ys p = ground arith
codes_leb_total (x ∷ xs) [] p = refl
codes_leb_total (x ∷ xs) (y ∷ ys) p = ground (arith, codes_leb_total xs ys)

pub codes_leb_antisym : (xs ys : List ℕ) → codes_leb xs ys ≡ true → codes_leb ys xs ≡ true → xs ≡ ys
unfolding codes_leb
codes_leb_antisym [] [] p q = refl
codes_leb_antisym [] (y ∷ ys) p q = ground arith
codes_leb_antisym (x ∷ xs) [] p q = ground arith
codes_leb_antisym (x ∷ xs) (y ∷ ys) p q = ground (arith, codes_leb_antisym xs ys)

pub codes-injective : (s t : String) → codes s ≡ codes t → s ≡ t
codes-injective String.[] String.[] e = refl
codes-injective String.[] (String.◌∷◌ d t) e = absurd (cc)
codes-injective (String.◌∷◌ c s) String.[] e = absurd (cc)
codes-injective (String.◌∷◌ c s) (String.◌∷◌ d t) e =
    let heads : code c ≡ code d = cc in
    let tails : codes s ≡ codes t = cc in cc (Char-path c d heads, codes-injective s t tails)

-- `s <= t`
abbrev pub str_leb : String → String → Bool
str_leb s t = codes_leb (codes s) (codes t)

abbrev pub is_lower : ℕ → Bool
is_lower c = leb 97 c && leb c 122

abbrev pub is_digit : ℕ → Bool
is_digit c = leb 48 c && leb c 57
