-- ===== src/Debounce/Window.antt =====
-- The window against the full record of what was added.
use counter_cruiser.Prelude.{
  ℕ, suc, ◌-◌, ◌<◌, ◌≤◌, ◌≡◌, refl, sym, ap, ◌∙◌, inl, inr, List, [], ◌∷◌, ◌++◌, append_assoc,
  append-nil, length, length-append, length-drop, drop, drop-append, drop-suc, ℤ, arith, ltb,
  Bool-cases, keep_if, if◌then◌else◌,
}
use counter_cruiser.Debounce.Defs.{
  FrameRecord, DetectionHistory, init, last, add, is_consecutive_elevated,
}
use counter_cruiser.Debounce.Pairs.{any_pair, closest_pair_lem}

-- One `add` for each record, in order.
unfoldable pub add_all : List FrameRecord → DetectionHistory → DetectionHistory
add_all [] h = h
add_all (r ∷ rs) h = add_all rs (add r.frame_id r.is_elevated h)

-- The window holds the last `max_size` records of `past`, or all of them if there are fewer.
drop-nil : (n : ℕ) → drop {A = FrameRecord} (0 - n) [] ≡ []
drop-nil n = let e : 0 - n ≡ 0 = omega arith in rw e

pub record Tracks (max_size : ℕ) (past : List FrameRecord) (h : DetectionHistory) : Type 0 where
  pub size : h.max_size ≡ max_size
  pub window : h.records ≡ drop (length past - max_size) past

-- One step of the window, on lists alone.
slide {ℓ} :
    {A : Type ℓ} (m : ℕ) (past : List A) (r : A)
    → 0 < m
    → let w = drop (length past - m) past ++ r ∷ [] in
      (if ltb m (length w) then last m w else w)
      ≡ drop (length (past ++ r ∷ []) - m) (past ++ r ∷ [])
slide {A} m past r p = elim (Bool-cases (ltb (length past) m)) [
  | inl few ↦
      let short : length past - m ≡ 0 = ground arith in
      let longer : length (past ++ r ∷ []) - m ≡ 0 = ground (arith, length-append past (r ∷ [])) in
      rw (short, longer) (ground (arith, length-append past (r ∷ [])))
  | inr full ↦
      let k = length past - m in
      let w = drop k past ++ r ∷ [] in
      let size : length w ≡ suc m =
        ground (arith, length-append (drop k past) (r ∷ []), length-drop k past) in
      let next : length (past ++ r ∷ []) - m ≡ suc k =
        ground (arith, length-append past (r ∷ [])) in
      let one : length w - m ≡ 1 = omega arith in
      let trimmed : (if ltb m (length w) then last m w else w) ≡ drop (length w - m) w =
        ground arith in
      trimmed
      ∙ ap (λ n. drop n w) one
      ∙ drop-append 1 (drop k past) (r ∷ []) (ground (arith, length-drop k past))
      ∙ ap (λ l. l ++ r ∷ []) (drop-suc k past)
      ∙ sym (drop-append (suc k) past (r ∷ []) (ground arith))
      ∙ ap (λ n. drop n (past ++ r ∷ [])) (sym next)
]

module _ (max_size : ℕ) where
  add-Tracks :
      (r : FrameRecord) (past : List FrameRecord) (h : DetectionHistory)
      → 0 < max_size
      → Tracks max_size past h
      → Tracks max_size (past ++ r ∷ []) (add r.frame_id r.is_elevated h)
  unfolding add
  add-Tracks r past h p t = record {
    size = t.size;
    window = rw (t.window, t.size) (slide max_size past r p);
  }

  add_all-Tracks :
      (rs past : List FrameRecord) (h : DetectionHistory)
      → 0 < max_size
      → Tracks max_size past h
      → Tracks max_size (past ++ rs) (add_all rs h)
  unfolding add_all
  add_all-Tracks [] past h p t = rw append-nil t
  add_all-Tracks (r ∷ rs) past h p t = rw (← append_assoc past (r ∷ []) rs) (
      add_all-Tracks rs (past ++ r ∷ []) (add r.frame_id r.is_elevated h) p
        (add-Tracks r past h p t))

-- From an empty history with a positive `max_size`, after any sequence of `add`s: the window has at
-- most `max_size` records, it holds exactly the last `max_size` records that were added (all, if
-- there were fewer), in order, and the debounce test is true exactly when two elevated ones among
-- those have frame ids at most `max_gap` apart.
pub window_refines :
    (max_size : ℕ) (max_gap : ℤ) (rs : List FrameRecord)
    → 0 < max_size
    → let h = add_all rs (init max_size) in
      let recent = drop (length rs - max_size) rs in
      (length h.records ≤ max_size)
      × (h.records ≡ recent)
      × (is_consecutive_elevated max_gap h ≡ any_pair max_gap (keep_if (λ r. r.is_elevated) recent))
unfolding init
window_refines max_size max_gap rs p =
    let t : Tracks max_size rs (add_all rs (init max_size)) =
      add_all-Tracks max_size rs [] (init max_size) p
        (record { size = refl; window = sym (drop-nil max_size) }) in
    let h = add_all rs (init max_size) in
    (
      rw t.window (omega (arith, length-drop (length rs - max_size) rs)),
      t.window,
      closest_pair_lem max_gap h
          ∙ ap (λ l. any_pair max_gap (keep_if (λ r. r.is_elevated) l)) t.window,
    )

add_untrimmed :
    (r : FrameRecord) (past : List FrameRecord)
    → add r.frame_id r.is_elevated (record { records = past; max_size = 0 })
      ≡ record { records = past ++ r ∷ []; max_size = 0 }
unfolding add
add_untrimmed r past = ground arith

add_all_unbounded :
    (rs past : List FrameRecord)
    → (add_all rs (record { records = past; max_size = 0 })).records ≡ past ++ rs
unfolding add_all
add_all_unbounded [] past = sym (append-nil past)
add_all_unbounded (r ∷ rs) past =
    ap (λ g. (add_all rs g).records) (add_untrimmed r past)
    ∙ add_all_unbounded rs (past ++ r ∷ [])
    ∙ append_assoc past (r ∷ []) rs

-- With `max_size` 0 nothing is ever discarded: `records[-0:]` is the whole list.
pub window_unbounded : (rs : List FrameRecord) → (add_all rs (init 0)).records ≡ rs
unfolding init
window_unbounded rs = add_all_unbounded rs []
