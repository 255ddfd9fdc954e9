-- ===== src/Prelude/Order.antt =====
-- Python's order of strings, by code points, and `sorted`: insertion sort, which is stable.
use Prim.Native.Nat.{compare as compare_ℕ, Ordering}
use Prim.Native.Char.{Char, code}
use Prim.Native.String.compare
use Prim.Native.String.{String, [], ◌∷◌, compare, then as first_unequal}
use mathlib.Core.Path.{◌≡◌, refl, sym, ap, ◌∙◌}
use text.Mathlib.TextEquality.{codes_equal}
use text.Mathlib.TextPositions.{compare_self}
use mathlib.Core.Bool.{Bool, true, false}
use native.Mathlib.Omega.{arith}
use counter_cruiser.Prelude.Tests.{if◌then◌else◌, ltb, leb}

abbrev not_greater : Ordering → Bool
not_greater o = elim o [ Ordering.gt ↦ false | _ ↦ true ]

-- `a <= b`
unfoldable pub str_le : String → String → Bool
str_le a b = not_greater (compare a b)

not_greater-then :
    (o p : Ordering)
    → not_greater (first_unequal o p)
      ≡ elim o [ Ordering.lt ↦ true | Ordering.eq ↦ not_greater p | Ordering.gt ↦ false ]
not_greater-then Ordering.lt p = refl
not_greater-then Ordering.eq p = refl
not_greater-then Ordering.gt p = refl

str_le-nil : (t : String) → str_le [] t ≡ true
unfolding str_le
str_le-nil [] = refl
str_le-nil (d ∷ t) = ap not_greater (compare.nil-cons d t)

str_le-cons_nil : (c : Char) (s : String) → str_le (c ∷ s) [] ≡ false
unfolding str_le
str_le-cons_nil c s = ap not_greater (compare.cons-nil c s)

str_le-cons :
    (c d : Char) (s t : String)
    → str_le (c ∷ s) (d ∷ t) ≡ (
        if ltb (code c) (code d) then true else if leb (code c) (code d) then str_le s t else false)
unfolding str_le
str_le-cons c d s t =
    ap not_greater (compare.cons-cons c d s t)
    ∙ (not_greater-then (compare_ℕ (code c) (code d)) (compare s t))
    ∙ ground arith

pub str_le_total : (a b : String) → str_le a b ≡ false → str_le b a ≡ true
str_le_total [] b h = ground (arith, str_le-nil b)
str_le_total (c ∷ s) [] h = str_le-nil (c ∷ s)
str_le_total (c ∷ s) (d ∷ t) h =
    ground (arith, str_le-cons c d s t, str_le-cons d c t s, str_le_total s t)

pub str_le_trans : (a b c : String) → str_le a b ≡ true → str_le b c ≡ true → str_le a c ≡ true
str_le_trans [] b c h k = str_le-nil c
str_le_trans (x ∷ a) [] c h k = ground (arith, str_le-cons_nil x a)
str_le_trans (x ∷ a) (y ∷ b) [] h k = ground (arith, str_le-cons_nil y b)
str_le_trans (x ∷ a) (y ∷ b) (z ∷ c) h k =
    ground
      (arith, str_le-cons x y a b, str_le-cons y z b c, str_le-cons x z a c, str_le_trans a b c)

code_injective : (c d : Char) → code c ≡ code d → c ≡ d
code_injective c d h = codes_equal c d (ap (compare_ℕ (code c)) (sym h) ∙ compare_self (code c))

pub str_le_antisym : (a b : String) → str_le a b ≡ true → str_le b a ≡ true → a ≡ b
str_le_antisym [] [] h k = refl
str_le_antisym [] (d ∷ t) h k = ground (arith, str_le-cons_nil d t)
str_le_antisym (c ∷ s) [] h k = ground (arith, str_le-cons_nil c s)
str_le_antisym (c ∷ s) (d ∷ t) h k =
    let same : code c ≡ code d = ground (arith, str_le-cons c d s t, str_le-cons d c t s) in
    let le : str_le s t ≡ true = ground (arith, str_le-cons c d s t, str_le-cons d c t s) in
    let ge : str_le t s ≡ true = ground (arith, str_le-cons c d s t, str_le-cons d c t s) in
    λ i. code_injective c d same i ∷ str_le_antisym s t le ge i
