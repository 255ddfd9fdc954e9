-- ===== src/Prelude/Ordered.antt =====
-- Sorted lists and their first elements.
use Prim.Native.Nat.{ℕ, zero, suc}
use mathlib.Core.Path.{◌≡◌, refl, ap, ◌∙◌, subst}
use mathlib.Core.Bool.{Bool, true, false}
use mathlib.Core.List.{List, [], ◌∷◌, Permᴰ}
use native.Mathlib.Omega.{arith}
use mathlib.Core.Logic.{◌⊎◌, inl, inr}
use counter_cruiser.Prelude.Tests.{Bool-cases}
use counter_cruiser.Prelude.Lists.{All, Exists, keep_if, keep_if-in, keep_if-out, length, take}
use counter_cruiser.Prelude.Sort.{
  insert_by, sorted_by, insert_by-front, IsSortedBy, All-insert_by, All-keep_if,
}

module _ {A : Type 0} (le : A → A → Bool) where
  -- Sorting what is in order changes nothing.
  pub sorted_by-fixed : (xs : List A) → IsSortedBy le xs → sorted_by le xs ≡ xs
  sorted_by-fixed [] s = refl
  sorted_by-fixed (x ∷ xs) s =
      ap (insert_by le x) (sorted_by-fixed xs s.1) ∙ insert_by-front le x xs s.0

  pub keep_if-IsSortedBy :
      (test : A → Bool) (xs : List A) → IsSortedBy le xs → IsSortedBy le (keep_if test xs)
  keep_if-IsSortedBy test [] s = tt
  keep_if-IsSortedBy test (x ∷ xs) s = elim (Bool-cases (test x)) [
    | inl e ↦
        rw (keep_if-in test x xs e)
          (All-keep_if le (λ y. le x y ≡ true) test xs s.0, keep_if-IsSortedBy test xs s.1)
    | inr e ↦ rw (keep_if-out test x xs e) (keep_if-IsSortedBy test xs s.1)
  ]

  Exists-insert_by :
      (P : A → Type 0) (x : A) (ys : List A) → P x ⊎ Exists P ys → Exists P (insert_by le x ys)
  Exists-insert_by P x [] e = e
  Exists-insert_by P x (y ∷ ys) e = elim (Bool-cases (le x y)) [
    | inl b ↦ rw b e
    | inr b ↦ rw b (elim e [
      | inl p ↦ inr (Exists-insert_by P x ys (inl p))
      | inr q ↦ elim q [ inl r ↦ inl r | inr r ↦ inr (Exists-insert_by P x ys (inr r)) ]
    ])
  ]

  pub Exists-sorted_by : (P : A → Type 0) (xs : List A) → Exists P xs → Exists P (sorted_by le xs)
  Exists-sorted_by P [] e = absurd e
  Exists-sorted_by P (x ∷ xs) (inl p) = Exists-insert_by P x (sorted_by le xs) (inl p)
  Exists-sorted_by P (x ∷ xs) (inr q) =
      Exists-insert_by P x (sorted_by le xs) (inr (Exists-sorted_by P xs q))

  pub All-take : (P : A → Type 0) (n : ℕ) (xs : List A) → All P xs → All P (take n xs)
  All-take P zero xs all = tt
  All-take P (suc n) [] all = tt
  All-take P (suc n) (x ∷ xs) all = (all.0, All-take P n xs all.1)

  pub All-sorted_by : (P : A → Type 0) (xs : List A) → All P xs → All P (sorted_by le xs)
  All-sorted_by P [] all = tt
  All-sorted_by P (x ∷ xs) all =
      All-insert_by le P x (sorted_by le xs) all.0 (All-sorted_by P xs all.1)

  pub take-IsSortedBy : (n : ℕ) (xs : List A) → IsSortedBy le xs → IsSortedBy le (take n xs)
  take-IsSortedBy zero xs s = tt
  take-IsSortedBy (suc n) [] s = tt
  take-IsSortedBy (suc n) (x ∷ xs) s =
      (All-take (λ y. le x y ≡ true) n xs s.0, take-IsSortedBy n xs s.1)

  All-at : (P : A → Type 0) (x : A) (xs : List A) → All P xs → Exists (λ y. y ≡ x) xs → P x
  All-at P x [] all e = absurd e
  All-at P x (y ∷ xs) all (inl p) = subst P p all.0
  All-at P x (y ∷ xs) all (inr e) = All-at P x xs all.1 e

  -- What is not among the first of a sorted list stands after them.
  pub take_complete :
      (n : ℕ) (x : A) (xs : List A)
      → IsSortedBy le xs
      → Exists (λ y. y ≡ x) xs
      → Exists (λ y. y ≡ x) (take n xs)
        ⊎ ((length (take n xs) ≡ n) × All (λ y. le y x ≡ true) (take n xs))
  take_complete zero x xs s e = inr (refl, tt)
  take_complete (suc n) x [] s e = absurd e
  take_complete (suc n) x (y ∷ xs) s (inl p) = inl (inl p)
  take_complete (suc n) x (y ∷ xs) s (inr e) = elim (take_complete n x xs s.1 e) [
    | inl l ↦ inl (inr l)
    | inr (all, after) ↦ inr (ap suc all, (All-at (λ z. le y z ≡ true) x xs s.0 e, after))
  ]

pub All-imp :
    {A : Type 0} {P Q : A → Type 0} → ((a : A) → P a → Q a) → (xs : List A) → All P xs → All Q xs
All-imp f [] all = tt
All-imp f (x ∷ xs) all = (f x all.0, All-imp f xs all.1)

module _ {A : Type 0} (le : A → A → Bool) (total : (a b : A) → le a b ≡ false → le b a ≡ true)
    (trans : (a b c : A) → le a b ≡ true → le b c ≡ true → le a c ≡ true)
    (antisym : (a b : A) → le a b ≡ true → le b a ≡ true → a ≡ b) where
  insert_by_comm :
      (x y : A) (l : List A) → insert_by le x (insert_by le y l) ≡ insert_by le y (insert_by le x l)
  insert_by_comm x y [] = ground (arith, total x y, total y x, antisym x y)
  insert_by_comm x y (z ∷ l) = ground (
    arith,
    insert_by_comm x y l,
    total x y,
    total y x,
    total x z,
    total y z,
    antisym x y,
    trans x y z,
    trans y x z,
  )

  -- Sorting forgets the order.
  pub sorted_by_permuted : {xs ys : List A} → Permᴰ xs ys → sorted_by le xs ≡ sorted_by le ys
  sorted_by_permuted Permᴰ.nil = refl
  sorted_by_permuted (Permᴰ.cons e p) = λ i. insert_by le (e i) (sorted_by_permuted p i)
  sorted_by_permuted (Permᴰ.swap {l = l} e f) = insert_by_comm _ _ (sorted_by le l) ∙ λ i.
      insert_by le (f i) (insert_by le (e i) (sorted_by le l))
  sorted_by_permuted (Permᴰ.trans p q) = sorted_by_permuted p ∙ sorted_by_permuted q
