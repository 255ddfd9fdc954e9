-- ===== src/Client/Fps/Window.antt =====
-- The timestamps that are kept, and the estimate made of them.
use counter_cruiser.Prelude.{
  ℕ, ◌+◌, ◌≤◌, ◌<◌, ◌≡◌, refl, sym, ap, ◌∙◌, true, false, List, [], ◌∷◌, ◌++◌, keep_if, leb, arith,
  Bool-cases, inl, inr, subst, All, All-append, append-nil, append_assoc,
}
use counter_cruiser.Client.Fps.{FpsTracker, init, pop_old, last, frames_per, rate, tick}

-- The ticks come in the order of the clock.
abbrev pub InOrder : ℕ → List ℕ → Type 0
InOrder now [] = Unit
InOrder now (t ∷ ts) = (now ≤ t) × InOrder t ts

pub tick_all : List ℕ → FpsTracker → FpsTracker
tick_all [] f = f
tick_all (t ∷ ts) f = tick_all ts (tick t f)

-- The times that are within the window before `now`.
abbrev pub recent : ℕ → ℕ → List ℕ → List ℕ
recent window now = keep_if (λ t. leb now (t + window))

keep_recent :
    (window now : ℕ) (xs : List ℕ) → All (λ y. now ≤ y + window) xs → recent window now xs ≡ xs
keep_recent window now [] h = refl
keep_recent window now (x ∷ xs) h = ground (arith, keep_recent window now xs h.1)

abbrev Ascending : List ℕ → Type 0
Ascending [] = Unit
Ascending (t ∷ ts) = All (λ u. t ≤ u) ts × Ascending ts

above :
    (x window now : ℕ) (xs : List ℕ)
    → now ≤ x + window
    → All (λ u. x ≤ u) xs
    → All (λ y. now ≤ y + window) xs
above x window now [] h a = tt
above x window now (y ∷ ys) h a = (omega arith, above x window now ys h a.1)

-- Of times in order, popping from the left leaves those within the window.
pop_old-recent :
    (window now : ℕ) (xs : List ℕ) → Ascending xs → pop_old window now xs ≡ recent window now xs
pop_old-recent window now [] a = refl
pop_old-recent window now (x ∷ xs) a =
    ground
      (arith, pop_old-recent window now xs a.1, keep_recent window now xs, above x window now xs)

recent-recent :
    (window now later : ℕ) (xs ys : List ℕ)
    → now ≤ later
    → recent window later (recent window now xs ++ ys) ≡ recent window later (xs ++ ys)
recent-recent window now later [] ys h = refl
recent-recent window now later (x ∷ xs) ys h =
    ground (arith, recent-recent window now later xs ys h)

recent-kept :
    (window now x : ℕ) (xs : List ℕ)
    → leb now (x + window) ≡ true
    → recent window now (x ∷ xs) ≡ x ∷ recent window now xs
recent-kept window now x xs h = ground arith

recent-popped :
    (window now x : ℕ) (xs : List ℕ)
    → leb now (x + window) ≡ false
    → recent window now (x ∷ xs) ≡ recent window now xs
recent-popped window now x xs h = ground arith

All-recent :
    (P : ℕ → Type 0) (window now : ℕ) (xs : List ℕ) → All P xs → All P (recent window now xs)
All-recent P window now [] a = tt
All-recent P window now (x ∷ xs) a = elim (Bool-cases (leb now (x + window))) [
  | inl kept ↦
      subst (All P) (sym (recent-kept window now x xs kept)) (a.0, All-recent P window now xs a.1)
  | inr popped ↦
      subst (All P) (sym (recent-popped window now x xs popped)) (All-recent P window now xs a.1)
]

recent-Ascending : (window now : ℕ) (xs : List ℕ) → Ascending xs → Ascending (recent window now xs)
recent-Ascending window now [] a = tt
recent-Ascending window now (x ∷ xs) a = elim (Bool-cases (leb now (x + window))) [
  | inl kept ↦
      subst Ascending (sym (recent-kept window now x xs kept))
        (All-recent (λ u. x ≤ u) window now xs a.0, recent-Ascending window now xs a.1)
  | inr popped ↦
      subst Ascending (sym (recent-popped window now x xs popped))
        (recent-Ascending window now xs a.1)
]

append-Ascending :
    (xs : List ℕ) (t : ℕ) → Ascending xs → All (λ u. u ≤ t) xs → Ascending (xs ++ t ∷ [])
append-Ascending [] t a h = (tt, tt)
append-Ascending (x ∷ xs) t a h =
    (All-append (λ u. x ≤ u) xs (t ∷ []) a.0 (h.0, tt), append-Ascending xs t a.1 h.1)

later_All : (now t : ℕ) (xs : List ℕ) → now ≤ t → All (λ u. u ≤ now) xs → All (λ u. u ≤ t) xs
later_All now t [] h a = tt
later_All now t (x ∷ xs) h a = (omega arith, later_All now t xs h a.1)

record Tracks (window now : ℕ) (past : List ℕ) (f : FpsTracker) : Type 0 where
  window_kept : f.window ≡ window
  timestamps : f.timestamps ≡ recent window now past
  ascending : Ascending f.timestamps
  not_later : All (λ u. u ≤ now) f.timestamps

tick-Tracks :
    (window now t : ℕ) (past : List ℕ) (f : FpsTracker)
    → now ≤ t
    → Tracks window now past f
    → Tracks window t (past ++ t ∷ []) (tick t f)
unfolding tick
tick-Tracks window now t past f h k =
    let all = f.timestamps ++ t ∷ [] in
    let earlier = later_All now t f.timestamps h k.not_later in
    let popped : pop_old f.window t all ≡ recent window t all =
      rw (← k.window_kept)
        (pop_old-recent f.window t all (append-Ascending f.timestamps t k.ascending earlier)) in
    record {
      window_kept = k.window_kept;
      timestamps =
          popped
          ∙ ap (λ l. recent window t (l ++ t ∷ [])) k.timestamps
          ∙ recent-recent window now t past (t ∷ []) h;
      ascending =
          rw popped
            (recent-Ascending window t all (append-Ascending f.timestamps t k.ascending earlier));
      not_later = rw popped (
          All-recent (λ u. u ≤ t) window t all
            (All-append (λ u. u ≤ t) f.timestamps (t ∷ []) earlier (omega arith, tt)));
    }

tick_all-Tracks :
    (window now final : ℕ) (past ts : List ℕ) (f : FpsTracker)
    → InOrder now (ts ++ final ∷ [])
    → Tracks window now past f
    → (end : ℕ) × (end ≤ final) × Tracks window end (past ++ ts) (tick_all ts f)
unfolding tick_all
tick_all-Tracks window now final past [] f o k = (now, o.0, rw append-nil k)
tick_all-Tracks window now final past (t ∷ ts) f o k = rw (← append_assoc past (t ∷ []) ts) (
    tick_all-Tracks window t final (past ++ t ∷ []) ts (tick t f) o.1
      (tick-Tracks window now t past f o.0 k))

last-le : (now : ℕ) (xs : List ℕ) → All (λ u. u ≤ now) xs → last xs ≤ now
last-le now [] a = omega arith
last-le now (x ∷ []) a = a.0
last-le now (x ∷ y ∷ xs) a = last-le now (y ∷ xs) a.1

All-recent' : (window now : ℕ) (xs : List ℕ) → All (λ y. now ≤ y + window) (recent window now xs)
All-recent' window now [] = tt
All-recent' window now (x ∷ xs) = elim (Bool-cases (leb now (x + window))) [
  | inl kept ↦
      subst (All (λ y. now ≤ y + window)) (sym (recent-kept window now x xs kept))
        (ground arith, All-recent' window now xs)
  | inr popped ↦
      subst (All (λ y. now ≤ y + window)) (sym (recent-popped window now x xs popped))
        (All-recent' window now xs)
]

rate_bounds :
    (window now : ℕ) (xs : List ℕ) (n span : ℕ)
    → All (λ u. u ≤ now) xs
    → All (λ y. now ≤ y + window) xs
    → rate xs ≡ frames_per n span
    → (0 < n) × (0 < span) × (span ≤ window)
rate_bounds window now [] n span late kept h = cc
rate_bounds window now (x ∷ []) n span late kept h = cc
rate_bounds window now (x ∷ y ∷ xs) n span late kept h =
    let newest = last-le now (x ∷ y ∷ xs) late in let oldest = kept.0 in ground arith

-- After ticks in the order of the clock, the last of them at `now`, the tracker holds exactly those
-- at most a window old, in order. If it gives a rate, then of one frame or more over a span that is
-- not 0 and at most the window.
pub tick_all_window :
    (window now : ℕ) (ts : List ℕ)
    → InOrder 0 (ts ++ now ∷ [])
    → let f = tick now (tick_all ts (init window)) in
      (f.timestamps ≡ recent window now (ts ++ now ∷ []))
      × ((n span : ℕ)
          → rate f.timestamps ≡ frames_per n span
          → (0 < n) × (0 < span) × (span ≤ window))
unfolding init
tick_all_window window now ts o =
    let start : Tracks window 0 [] (init window) = record {
      window_kept = refl;
      timestamps = refl;
      ascending = tt;
      not_later = tt;
    } in
    let (end, h, k) = tick_all-Tracks window 0 now [] ts (init window) o start in
    let k' = tick-Tracks window end now ts (tick_all ts (init window)) h k in
    (
      k'.timestamps,
      λ n span e.
          rate_bounds window now _ n span k'.not_later
            (rw k'.timestamps (All-recent' window now (ts ++ now ∷ []))) e,
    )
