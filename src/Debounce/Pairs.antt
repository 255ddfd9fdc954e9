-- ===== src/Debounce/Pairs.antt =====
-- `is_consecutive_elevated` looks at neighbours in a sorted list only; this finds a close pair
-- whenever any two elevated records are close.
use counter_cruiser.Prelude.{
  ◌≡◌, refl, ◌∙◌, ap, Bool, All, true, false, List, [], ◌∷◌, length, any, keep_if, ◌||◌, ℤ, ◌-ℤ◌,
  ◌≤ℤ◌, leb_ℤ, -ℤ_parts, arith, ltb, if◌then◌else◌,
}
use counter_cruiser.Debounce.Defs.{
  FrameRecord, DetectionHistory, insert_sorted, sort, any_adjacent, is_consecutive_elevated,
}

-- The ids of two records differ by at most the gap, in either order.
unfoldable pub within : ℤ → FrameRecord → FrameRecord → Bool
within gap a b =
    if leb_ℤ a.frame_id b.frame_id
    then leb_ℤ (b.frame_id -ℤ a.frame_id) gap
    else leb_ℤ (a.frame_id -ℤ b.frame_id) gap

-- Some two records of the list, at different places, are within the gap.
abbrev pub any_pair : ℤ → List FrameRecord → Bool
any_pair gap [] = false
any_pair gap (a ∷ l) = any (within gap a) l || any_pair gap l

module _ (gap : ℤ) where
  within_sym : (a b : FrameRecord) → within gap a b ≡ within gap b a
  unfolding within
  within_sym a b = ground (arith, -ℤ_parts b.frame_id a.frame_id, -ℤ_parts a.frame_id b.frame_id)

  any-insert_sorted :
      (f : FrameRecord → Bool) (r : FrameRecord) (l : List FrameRecord)
      → any f (insert_sorted r l) ≡ (f r || any f l)
  any-insert_sorted f r [] = refl
  any-insert_sorted f r (s ∷ l) = ground (arith, any-insert_sorted f r l)

  any_pair-insert_sorted :
      (r : FrameRecord) (l : List FrameRecord)
      → any_pair gap (insert_sorted r l) ≡ (any (within gap r) l || any_pair gap l)
  any_pair-insert_sorted r [] = refl
  any_pair-insert_sorted r (s ∷ l) =
      ground
        (arith, any_pair-insert_sorted r l, any-insert_sorted (within gap s) r l, within_sym s r)

  any-sort : (f : FrameRecord → Bool) (l : List FrameRecord) → any f (sort l) ≡ any f l
  any-sort f [] = refl
  any-sort f (r ∷ l) = any-insert_sorted f r (sort l) ∙ ap (λ b. f r || b) (any-sort f l)

  any_pair-sort : (l : List FrameRecord) → any_pair gap (sort l) ≡ any_pair gap l
  any_pair-sort [] = refl
  any_pair-sort (r ∷ l) =
      ground (arith, any_pair-insert_sorted r (sort l), any_pair-sort l, any-sort (within gap r) l)

abbrev IsSorted : List FrameRecord → Type 0
IsSorted [] = Unit
IsSorted (a ∷ l) = All (λ b. a.frame_id ≤ℤ b.frame_id) l × IsSorted l

All-insert_sorted :
    (a r : FrameRecord) (l : List FrameRecord)
    → a.frame_id ≤ℤ r.frame_id
    → All (λ b. a.frame_id ≤ℤ b.frame_id) l
    → All (λ b. a.frame_id ≤ℤ b.frame_id) (insert_sorted r l)
All-insert_sorted a r [] h all = (h, tt)
All-insert_sorted a r (s ∷ l) h all = ground (arith, All-insert_sorted a r l h all.1)

All-trans :
    (a b : FrameRecord) (l : List FrameRecord)
    → a.frame_id ≤ℤ b.frame_id
    → All (λ c. b.frame_id ≤ℤ c.frame_id) l
    → All (λ c. a.frame_id ≤ℤ c.frame_id) l
All-trans a b [] h all = tt
All-trans a b (c ∷ l) h all = (omega arith, All-trans a b l h all.1)

insert_sorted-IsSorted :
    (r : FrameRecord) (l : List FrameRecord) → IsSorted l → IsSorted (insert_sorted r l)
insert_sorted-IsSorted r [] h = (tt, tt)
insert_sorted-IsSorted r (s ∷ l) h =
    ground (arith, insert_sorted-IsSorted r l h.1, All-insert_sorted s r l, All-trans r s l)

sort-IsSorted : (l : List FrameRecord) → IsSorted (sort l)
sort-IsSorted [] = tt
sort-IsSorted (r ∷ l) = insert_sorted-IsSorted r (sort l) (sort-IsSorted l)

module _ (gap : ℤ) where
  -- In a sorted list whatever is close to `a` is no closer than the neighbour of `a`.
  neighbour_close :
      (a b : FrameRecord) (l : List FrameRecord)
      → a.frame_id ≤ℤ b.frame_id
      → All (λ c. b.frame_id ≤ℤ c.frame_id) l
      → any (within gap a) l ≡ true
      → leb_ℤ (b.frame_id -ℤ a.frame_id) gap ≡ true
  unfolding within
  neighbour_close a b [] h all e = cc
  neighbour_close a b (c ∷ l) h all e = ground (
    arith,
    neighbour_close a b l h all.1,
    -ℤ_parts b.frame_id a.frame_id,
    -ℤ_parts c.frame_id a.frame_id,
  )

  within_le :
      (a b : FrameRecord)
      → a.frame_id ≤ℤ b.frame_id
      → within gap a b ≡ leb_ℤ (b.frame_id -ℤ a.frame_id) gap
  unfolding within
  within_le a b h = ground arith

  any_adjacent-eq-any_pair :
      (l : List FrameRecord) → IsSorted l → any_adjacent gap l ≡ any_pair gap l
  any_adjacent-eq-any_pair [] h = refl
  any_adjacent-eq-any_pair (a ∷ []) h = refl
  any_adjacent-eq-any_pair (a ∷ b ∷ l) h = ground (
    arith,
    any_adjacent-eq-any_pair (b ∷ l) h.1,
    neighbour_close a b l h.0.0 h.1.0,
    within_le a b h.0.0,
  )

any_adjacent_short :
    (gap : ℤ) (l : List FrameRecord)
    → (if ltb (length l) 2 then false else any_adjacent gap l) ≡ any_adjacent gap l
any_adjacent_short gap [] = refl
any_adjacent_short gap (a ∷ []) = refl
any_adjacent_short gap (a ∷ b ∷ l) = ground arith

-- The debounce test is true exactly when some two elevated records of the window, in any order and
-- at any places, have frame ids at most `max_gap` apart.
pub closest_pair_lem :
    (max_gap : ℤ) (h : DetectionHistory)
    → is_consecutive_elevated max_gap h ≡ any_pair max_gap (keep_if (λ r. r.is_elevated) h.records)
unfolding is_consecutive_elevated
closest_pair_lem max_gap h =
    let elevated = keep_if (λ r. r.is_elevated) h.records in
    any_adjacent_short max_gap (sort elevated)
    ∙ any_adjacent-eq-any_pair max_gap (sort elevated) (sort-IsSorted elevated)
    ∙ any_pair-sort max_gap elevated
