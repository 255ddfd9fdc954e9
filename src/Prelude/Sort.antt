-- ===== src/Prelude/Sort.antt =====
-- `sorted`, as insertion sort, and what filtering does to a sorted list.
use Prim.Native.Nat.{suc}
use mathlib.Core.Path.{◌≡◌, refl, sym, ap, ◌∙◌}
use mathlib.Core.Bool.{Bool, true, false}
use mathlib.Core.List.{List, [], ◌∷◌}
use mathlib.Core.Logic.{inl, inr}
use native.Mathlib.Omega.{arith}
use counter_cruiser.Prelude.Tests.{if◌then◌else◌, Bool-cases}
use counter_cruiser.Prelude.Lists.{All, keep_if, keep_if-in, keep_if-out, length}

module _ {A : Type 0} (le : A → A → Bool) where
  abbrev pub insert_by : A → List A → List A
  insert_by x [] = x ∷ []
  insert_by x (y ∷ ys) = if le x y then x ∷ y ∷ ys else y ∷ insert_by x ys

  abbrev pub sorted_by : List A → List A
  sorted_by [] = []
  sorted_by (x ∷ xs) = insert_by x (sorted_by xs)

  -- Each element is before all that follow it.
  abbrev pub IsSortedBy : List A → Type 0
  IsSortedBy [] = Unit
  IsSortedBy (x ∷ xs) = All (λ y. le x y ≡ true) xs × IsSortedBy xs

  pub length-insert_by : (x : A) (ys : List A) → length (insert_by x ys) ≡ suc (length ys)
  length-insert_by x [] = refl
  length-insert_by x (y ∷ ys) = ground (arith, length-insert_by x ys)

  pub length-sorted_by : (xs : List A) → length (sorted_by xs) ≡ length xs
  length-sorted_by [] = refl
  length-sorted_by (x ∷ xs) = length-insert_by x (sorted_by xs) ∙ ap suc (length-sorted_by xs)

  pub All-insert_by :
      (P : A → Type 0) (x : A) (ys : List A) → P x → All P ys → All P (insert_by x ys)
  All-insert_by P x [] p all = (p, tt)
  All-insert_by P x (y ∷ ys) p all = elim (Bool-cases (le x y)) [
    | inl e ↦ rw e (p, all)
    | inr e ↦ rw e (all.0, All-insert_by P x ys p all.1)
  ]

  -- An element before all others stays in front.
  pub insert_by-front :
      (x : A) (ys : List A) → All (λ y. le x y ≡ true) ys → insert_by x ys ≡ x ∷ ys
  insert_by-front x [] all = refl
  insert_by-front x (y ∷ ys) all = rw all.0

  pub All-keep_if :
      (P : A → Type 0) (test : A → Bool) (ys : List A) → All P ys → All P (keep_if test ys)
  All-keep_if P test [] all = tt
  All-keep_if P test (y ∷ ys) all = elim (Bool-cases (test y)) [
    | inl e ↦ rw (keep_if-in test y ys e) (all.0, All-keep_if P test ys all.1)
    | inr e ↦ rw (keep_if-out test y ys e) (All-keep_if P test ys all.1)
  ]

  module _ (total : (a b : A) → le a b ≡ false → le b a ≡ true)
      (trans : (a b c : A) → le a b ≡ true → le b c ≡ true → le a c ≡ true) where
    All-le :
        (x y : A) (ys : List A)
        → le x y ≡ true
        → All (λ z. le y z ≡ true) ys
        → All (λ z. le x z ≡ true) ys
    All-le x y [] h all = tt
    All-le x y (z ∷ ys) h all = (trans x y z h all.0, All-le x y ys h all.1)

    pub insert_by-IsSortedBy : (x : A) (ys : List A) → IsSortedBy ys → IsSortedBy (insert_by x ys)
    insert_by-IsSortedBy x [] s = (tt, tt)
    insert_by-IsSortedBy x (y ∷ ys) s = elim (Bool-cases (le x y)) [
      | inl e ↦ rw e ((e, All-le x y ys e s.0), s)
      | inr e ↦
          rw e (
            All-insert_by (λ z. le y z ≡ true) x ys (total x y e) s.0,
            insert_by-IsSortedBy x ys s.1,
          )
    ]

    pub sorted_by-IsSortedBy : (xs : List A) → IsSortedBy (sorted_by xs)
    sorted_by-IsSortedBy [] = tt
    sorted_by-IsSortedBy (x ∷ xs) = insert_by-IsSortedBy x (sorted_by xs) (sorted_by-IsSortedBy xs)

    module _ (test : A → Bool) where
      keep_if-insert_by :
          (x : A) (ys : List A)
          → IsSortedBy ys
          → keep_if test (insert_by x ys)
            ≡ (if test x then insert_by x (keep_if test ys) else keep_if test ys)
      keep_if-insert_by x [] s = elim (Bool-cases (test x)) [ inl e ↦ rw e | inr e ↦ rw e ]
      keep_if-insert_by x (y ∷ ys) s = elim (Bool-cases (le x y)) [
        | inl e ↦
            let after = All-keep_if (λ z. le x z ≡ true) test (y ∷ ys) (e, All-le x y ys e s.0) in
            let front = insert_by-front x (keep_if test (y ∷ ys)) after in
            elim (Bool-cases (test x)) [ inl t ↦ rw (e, t) (sym front) | inr t ↦ rw (e, t) ]
        | inr e ↦ elim (Bool-cases (test y)) [
          | inl t ↦
              rw
                (
                  e,
                  keep_if-in test y (insert_by x ys) t,
                  keep_if-in test y ys t,
                  keep_if-insert_by x ys s.1,
                  e,
                )
                (elim (Bool-cases (test x)) [ inl u ↦ rw u | inr u ↦ rw u ])
          | inr t ↦ rw (
            e,
            keep_if-out test y (insert_by x ys) t,
            keep_if-out test y ys t,
            keep_if-insert_by x ys s.1,
          )
        ]
      ]

      -- Filtering and sorting commute.
      pub keep_if-sorted_by :
          (xs : List A) → keep_if test (sorted_by xs) ≡ sorted_by (keep_if test xs)
      keep_if-sorted_by [] = refl
      keep_if-sorted_by (x ∷ xs) =
          keep_if-insert_by x (sorted_by xs) (sorted_by-IsSortedBy xs)
          ∙ elim (Bool-cases (test x)) [
            | inl t ↦ rw (t, keep_if-in test x xs t, keep_if-sorted_by xs)
            | inr t ↦ rw (t, keep_if-out test x xs t, keep_if-sorted_by xs)
          ]
