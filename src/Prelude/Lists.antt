-- ===== src/Prelude/Lists.antt =====
-- Lists measured by native numbers, under the library's names, and predicates on their elements.
use Prim.Native.Nat.{ℕ, zero, suc, ◌+◌, ◌-◌, ◌≤◌}
use mathlib.Core.Path.{◌≡◌, refl, ap}
use mathlib.Core.List.{List, [], ◌∷◌, ◌++◌}
use mathlib.Core.Bool.{Bool, true, false, ◌||◌, ◌&&◌}
use mathlib.Core.Logic.{◌⊎◌, inl, inr}
use native.Mathlib.Omega.{arith}
use counter_cruiser.Prelude.Tests.{Bool-cases, ||-true}

module _ {ℓ} {A : Type ℓ} where
  abbrev pub length : List A → ℕ
  length [] = 0
  length (x ∷ xs) = suc (length xs)

  abbrev pub take : ℕ → List A → List A
  take zero xs = []
  take (suc n) [] = []
  take (suc n) (x ∷ xs) = x ∷ take n xs

  abbrev pub drop : ℕ → List A → List A
  drop zero xs = xs
  drop (suc n) [] = []
  drop (suc n) (x ∷ xs) = drop n xs

  -- `any(test(x) for x in xs)`
  abbrev pub any : (A → Bool) → List A → Bool
  any test [] = false
  any test (x ∷ xs) = test x || any test xs

  -- `all(test(x) for x in xs)`
  abbrev pub all : (A → Bool) → List A → Bool
  all test [] = true
  all test (x ∷ xs) = test x && all test xs

  -- `[x for x in xs if test(x)]`
  abbrev pub keep_if : (A → Bool) → List A → List A
  keep_if test [] = []
  keep_if test (x ∷ xs) = elim (test x) [ true ↦ x ∷ keep_if test xs | false ↦ keep_if test xs ]

  pub keep_if-in :
      (test : A → Bool) (x : A) (xs : List A)
      → test x ≡ true
      → keep_if test (x ∷ xs) ≡ x ∷ keep_if test xs
  keep_if-in test x xs h = rw (keep_if, h)

  pub keep_if-out :
      (test : A → Bool) (x : A) (xs : List A)
      → test x ≡ false
      → keep_if test (x ∷ xs) ≡ keep_if test xs
  keep_if-out test x xs h = rw (keep_if, h)

  -- Some element of the list has the property, and which one.
  abbrev pub Exists : (A → Type 0) → List A → Type 0
  Exists P [] = ⊥
  Exists P (x ∷ xs) = P x ⊎ Exists P xs

  -- Every element of the list has the property.
  abbrev pub All : (A → Type 0) → List A → Type 0
  All P [] = Unit
  All P (x ∷ xs) = P x × All P xs

module _ {ℓ} {A : Type ℓ} where
  pub length-append : (xs ys : List A) → length (xs ++ ys) ≡ length xs + length ys
  length-append [] ys = omega arith
  length-append (x ∷ xs) ys = omega (arith, length-append xs ys)

  pub length-take-le : (n : ℕ) (xs : List A) → length (take n xs) ≤ n
  length-take-le zero xs = omega arith
  length-take-le (suc n) [] = omega arith
  length-take-le (suc n) (x ∷ xs) = omega (arith, length-take-le n xs)

  pub length-drop : (n : ℕ) (xs : List A) → length (drop n xs) ≡ length xs - n
  length-drop zero xs = omega arith
  length-drop (suc n) [] = omega arith
  length-drop (suc n) (x ∷ xs) = omega (arith, length-drop n xs)

  pub drop_all : (n : ℕ) (xs : List A) → length xs ≤ n → drop n xs ≡ []
  drop_all zero [] h = refl
  drop_all zero (x ∷ xs) h = absurd (omega arith)
  drop_all (suc n) [] h = refl
  drop_all (suc n) (x ∷ xs) h = drop_all n xs (omega arith)

  -- Dropping no more than the first list holds leaves the second whole.
  pub drop-append : (n : ℕ) (xs ys : List A) → n ≤ length xs → drop n (xs ++ ys) ≡ drop n xs ++ ys
  drop-append zero xs ys h = refl
  drop-append (suc n) [] ys h = absurd (omega arith)
  drop-append (suc n) (x ∷ xs) ys h = drop-append n xs ys (omega arith)

  pub take-nil : (n : ℕ) → take {A = A} n [] ≡ []
  take-nil zero = refl
  take-nil (suc n) = refl

  -- One more element dropped.
  pub drop-suc : (n : ℕ) (xs : List A) → drop 1 (drop n xs) ≡ drop (suc n) xs
  drop-suc zero xs = refl
  drop-suc (suc n) [] = refl
  drop-suc (suc n) (x ∷ xs) = drop-suc n xs

  pub take-take_cons : (n : ℕ) (x : A) (xs : List A) → take n (x ∷ take n xs) ≡ take n (x ∷ xs)
  take-take_cons zero x xs = refl
  take-take_cons (suc n) x xs = ap (◌∷◌ x) (go n xs)
    where
      go : (n : ℕ) (xs : List A) → take n (take (suc n) xs) ≡ take n xs
      go zero xs = refl
      go (suc n) [] = refl
      go (suc n) (y ∷ ys) = ap (◌∷◌ y) (go n ys)

module _ {ℓ} {A : Type ℓ} (P : A → Type 0) where
  pub Exists-append_left : (xs ys : List A) → Exists P xs → Exists P (xs ++ ys)
  Exists-append_left [] ys h = absurd h
  Exists-append_left (x ∷ xs) ys (inl h) = inl h
  Exists-append_left (x ∷ xs) ys (inr h) = inr (Exists-append_left xs ys h)

  pub Exists-append_right : (xs ys : List A) → Exists P ys → Exists P (xs ++ ys)
  Exists-append_right [] ys h = h
  Exists-append_right (x ∷ xs) ys h = inr (Exists-append_right xs ys h)

  pub Exists-append : (xs ys : List A) → Exists P (xs ++ ys) → Exists P xs ⊎ Exists P ys
  Exists-append [] ys h = inr h
  Exists-append (x ∷ xs) ys (inl h) = inl (inl h)
  Exists-append (x ∷ xs) ys (inr h) = elim (Exists-append xs ys h) [
    | inl l ↦ inl (inr l)
    | inr r ↦ inr r
  ]

  pub All-append : (xs ys : List A) → All P xs → All P ys → All P (xs ++ ys)
  All-append [] ys hx hy = hy
  All-append (x ∷ xs) ys hx hy = (hx.0, All-append xs ys hx.1 hy)

  -- A Boolean test that decides the property decides it for a whole list.
  module _ (test : A → Bool)
      (decides : (a : A) → (test a ≡ true → P a) × (P a → test a ≡ true)) where
    pub any→Exists : (xs : List A) → any test xs ≡ true → Exists P xs
    any→Exists [] h = cc
    any→Exists (x ∷ xs) h = elim (Bool-cases (test x)) [
      | inl e ↦ inl ((decides x).0 e)
      | inr e ↦ inr (any→Exists xs (rw e at h))
    ]

    pub Exists→any : (xs : List A) → Exists P xs → any test xs ≡ true
    Exists→any [] h = absurd h
    Exists→any (x ∷ xs) (inl h) = rw ((decides x).1 h)
    Exists→any (x ∷ xs) (inr h) = rw (Exists→any xs h) (||-true (test x))
