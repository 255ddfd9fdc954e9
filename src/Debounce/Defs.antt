-- ===== src/Debounce/Defs.antt =====
-- `FrameRecord`, `DetectionHistory` and its methods.
use counter_cruiser.Prelude.{
  ℕ, ◌-◌, ◌++◌, Bool, false, List, [], ◌∷◌, length, drop, keep_if, if◌then◌else◌, ltb, ◌==◌, ◌||◌,
  ℤ, ◌-ℤ◌, leb_ℤ,
}

pub record FrameRecord : Type 0 where
  pub frame_id : ℤ
  pub is_elevated : Bool

pub record DetectionHistory : Type 0 where
  pub records : List FrameRecord
  pub max_size : ℕ

unfoldable pub init : ℕ → DetectionHistory
init max_size = record { records = []; max_size = max_size }

-- `xs[-n:]`; since `-0` is `0`, the slice `xs[-0:]` is the whole list.
abbrev pub last {ℓ} : {A : Type ℓ} → ℕ → List A → List A
last n xs = if n == 0 then xs else drop (length xs - n) xs

unfoldable pub add : ℤ → Bool → DetectionHistory → DetectionHistory
add frame_id is_elevated h =
    let records = h.records ++ record { frame_id = frame_id; is_elevated = is_elevated } ∷ [] in
    record h {
      records = if ltb h.max_size (length records) then last h.max_size records else records;
    }

-- `sorted(..., key=lambda r: r.frame_id)`
abbrev pub insert_sorted : FrameRecord → List FrameRecord → List FrameRecord
insert_sorted r [] = r ∷ []
insert_sorted r (s ∷ l) = if leb_ℤ r.frame_id s.frame_id then r ∷ s ∷ l else s ∷ insert_sorted r l

abbrev pub sort : List FrameRecord → List FrameRecord
sort [] = []
sort (r ∷ l) = insert_sorted r (sort l)

-- The `any` over neighbours: false of fewer than two records.
abbrev pub any_adjacent : ℤ → List FrameRecord → Bool
any_adjacent max_gap [] = false
any_adjacent max_gap (a ∷ []) = false
any_adjacent max_gap (a ∷ b ∷ l) =
    leb_ℤ (b.frame_id -ℤ a.frame_id) max_gap || any_adjacent max_gap (b ∷ l)

unfoldable pub is_consecutive_elevated : ℤ → DetectionHistory → Bool
is_consecutive_elevated max_gap h =
    let elevated = sort (keep_if (λ r. r.is_elevated) h.records) in
    if ltb (length elevated) 2 then false else any_adjacent max_gap elevated
