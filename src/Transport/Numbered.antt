-- ===== src/Transport/Numbered.antt =====
-- The frames under consecutive ids, and the window of the last of them.
use counter_cruiser.Prelude.{
  ℕ, zero, suc, ◌+◌, ◌-◌, ◌<◌, ◌≤◌, ◌≡◌, refl, sym, ap, ◌∙◌, true, Option, none, some, List, [],
  ◌∷◌, ◌++◌, length, length-append, length-drop, drop, drop-append, drop-suc, ltb, leb, ◌==◌, arith,
  Bool-cases, inl, inr, if◌then◌else◌,
}
use counter_cruiser.Transport.Defs.{Dict, get, put, delete_oldest}

-- The frames with their ids, from a first id on.
abbrev pub numbered {ℓ} : {A : Type ℓ} → ℕ → List A → Dict A
numbered k [] = []
numbered k (x ∷ xs) = (k, x) ∷ numbered (suc k) xs

module _ {ℓ} {A : Type ℓ} where
  -- The item at a place, counted from `k`.
  abbrev pub at : ℕ → List A → ℕ → Option A
  at k [] i = none
  at k (x ∷ xs) i = if k == i then some x else at (suc k) xs i

  pub put-numbered :
      (k n : ℕ) (xs : List A) (x : A)
      → n ≡ k + length xs
      → put n x (numbered k xs) ≡ numbered k (xs ++ x ∷ [])
  put-numbered k n [] x h = ap (λ (j : ℕ). (j, x) ∷ []) (omega arith)
  put-numbered k n (y ∷ ys) x h = ground (arith, put-numbered (suc k) n ys x)

  delete_oldest-numbered :
      (k : ℕ) (xs : List A) → delete_oldest (numbered k xs) ≡ numbered (suc k) (drop 1 xs)
  delete_oldest-numbered k [] = refl
  delete_oldest-numbered k (x ∷ xs) = ground arith

  pub length-numbered : (k : ℕ) (xs : List A) → length (numbered k xs) ≡ length xs
  length-numbered k [] = refl
  length-numbered k (x ∷ xs) = ap suc (length-numbered (suc k) xs)

  pub get-numbered : (k i : ℕ) (xs : List A) → get i (numbered k xs) ≡ at k xs i
  get-numbered k i [] = refl
  get-numbered k i (x ∷ xs) = ground (arith, get-numbered (suc k) i xs)

  -- One more item in the numbered list of the last `m`, and one less if there are then too many.
  pub slide :
      (m : ℕ) (past : List A) (x : A)
      → let k = length past - m in
        let next = length (past ++ x ∷ []) - m in
        let w = drop k past ++ x ∷ [] in
        (if ltb m (length w) then delete_oldest (numbered (suc k) w) else numbered (suc k) w)
        ≡ numbered (suc next) (drop next (past ++ x ∷ []))
  slide m past x = elim (Bool-cases (ltb (length past) m)) [
    | inl few ↦
        let short : length past - m ≡ 0 = ground arith in
        let longer : length (past ++ x ∷ []) - m ≡ 0 =
          ground (arith, length-append past (x ∷ [])) in
        rw (short, longer) (ground (arith, length-append past (x ∷ [])))
    | inr full ↦
        let k = length past - m in
        let w = drop k past ++ x ∷ [] in
        let size : length w ≡ suc m =
          ground (arith, length-append (drop k past) (x ∷ []), length-drop k past) in
        let next : length (past ++ x ∷ []) - m ≡ suc k =
          ground (arith, length-append past (x ∷ [])) in
        let over : ltb m (length w) ≡ true = ground arith in
        let rest : drop 1 w ≡ drop (suc k) (past ++ x ∷ []) =
          ap (drop 1) (sym (drop-append k past (x ∷ []) (omega arith)))
          ∙ drop-suc k (past ++ x ∷ []) in
        rw (over, next) (delete_oldest-numbered (suc k) w ∙ ap (numbered (suc (suc k))) rest)
  ]

  at-below : (k i : ℕ) (xs : List A) → i < k → at k xs i ≡ none
  at-below k i [] h = refl
  at-below k i (x ∷ xs) h = ground (arith, at-below (suc k) i xs)

  pub at-drop :
      (k n i : ℕ) (xs : List A)
      → n ≤ length xs
      → at (k + n) (drop n xs) i ≡ (if leb (k + n) i then at k xs i else none)
  at-drop k zero i xs h = let e : k + 0 ≡ k = omega arith in rw e (ground (arith, at-below k i xs))
  at-drop k (suc n) i [] h = absurd (omega arith)
  at-drop k (suc n) i (x ∷ xs) h =
      let e : k + suc n ≡ suc k + n = omega arith in
      rw e (ground (arith, at-drop (suc k) n i xs (omega arith)))
