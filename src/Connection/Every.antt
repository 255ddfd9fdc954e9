-- ===== src/Connection/Every.antt =====
-- Which of the frames read are sent.
use counter_cruiser.Prelude.{
  ℕ, suc, ◌+◌, ◌*◌, ◌%◌, ◌<◌, ◌≤◌, ◌==◌, ◌≡◌, refl, ap, ◌∙◌, false, Bool-cases, inl, inr, List, [],
  ◌∷◌, arith, some, if◌then◌else◌, leb,
}
use native.Mathlib.Nat.{
  mul-add-mod_self_right, mod-eq_of_lt, mod_self, mul-le-mul_right, suc-mul, zero-mul,
}
use counter_cruiser.Transport.Numbered.{at}
use counter_cruiser.Connection.Wire.{every}

-- A multiple of `skip` is not strictly between two neighbours.
not_between :
    (skip q r k count : ℕ) → count ≡ q * skip + r → r + 1 < skip → (suc count == k * skip) ≡ false
not_between skip q r k count c h = elim (Bool-cases (leb k q)) [
  | inl below ↦
      let at_most : k * skip ≤ q * skip = mul-le-mul_right skip (ground (arith, below)) in
      ground (arith, at_most)
  | inr above ↦
      let at_least : suc q * skip ≤ k * skip = mul-le-mul_right skip (ground (arith, above)) in
      ground (arith, at_least, suc-mul q skip)
]

same_multiple :
    (skip q k count : ℕ)
    → suc count ≡ suc q * skip
    → 0 < skip
    → (suc count == k * skip) ≡ (suc q == k)
same_multiple skip q k count c h =
    let above : suc q ≤ k → suc q * skip ≤ k * skip = mul-le-mul_right skip in
    let far_above : suc (suc q) ≤ k → suc (suc q) * skip ≤ k * skip = mul-le-mul_right skip in
    let below : k ≤ q → k * skip ≤ q * skip = mul-le-mul_right skip in
    ground (arith, above, far_above, below, suc-mul q skip, suc-mul (suc q) skip)

is_due :
    (skip q r count : ℕ)
    → count ≡ q * skip + r
    → r < skip
    → (suc count % skip == 0) ≡ (r + 1 == skip)
is_due skip q r count c h =
    let whole : suc count ≡ q * skip + (r + 1) = omega arith in
    rw (whole, mul-add-mod_self_right q skip (r + 1))
      (elim (Bool-cases (r + 1 == skip)) [
        | inl last ↦
            let same : r + 1 ≡ skip = ground (arith, last) in
            ground (arith, last, ap (λ n. n % skip) same ∙ mod_self skip)
        | inr before ↦
            let small : (r + 1) % skip ≡ r + 1 = mod-eq_of_lt (ground (arith, before)) in
            ground (arith, before, small)
      ])

module _ {ℓ} {A : Type ℓ} where
  -- With `count` frames gone by, of which `q` were sent.
  at-every_from :
      (skip q r k count : ℕ) (xs : List A)
      → count ≡ q * skip + r
      → r < skip
      → at (suc q) (every skip count xs) k ≡ at (suc count) xs (k * skip)
  at-every_from skip q r k count [] c h = refl
  at-every_from skip q r k count (x ∷ xs) c h =
      let next : count + 1 ≡ suc count = omega arith in
      elim (Bool-cases (r + 1 == skip)) [
        | inl last ↦
            let ends : r + 1 ≡ skip = ground (arith, last) in
            let multiple : suc count ≡ suc q * skip = omega (arith, suc-mul q skip) in
            let rest = at-every_from skip (suc q) 0 k (suc count) xs (omega arith) (omega arith) in
            rw
              (
                next,
                is_due skip q r count c h ∙ last,
                same_multiple skip q k count multiple (omega arith),
              )
              (ap (λ y. if suc q == k then some x else y) rest)
        | inr before ↦
            let inside : r + 1 < skip = ground (arith, before, h) in
            rw (next, is_due skip q r count c h ∙ before, not_between skip q r k count c inside)
              (at-every_from skip q (r + 1) k (suc count) xs (omega arith) inside)
      ]

  -- Of the frames read, numbered from 1, the k-th that is sent is number k * `skip`.
  pub at-every :
      (skip k : ℕ) (xs : List A) → 0 < skip → at 1 (every skip 0 xs) k ≡ at 1 xs (k * skip)
  at-every skip k xs h =
      let zero_times : 0 * skip ≡ 0 = zero-mul skip in at-every_from skip 0 0 k 0 xs (omega arith) h
