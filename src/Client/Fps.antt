-- ===== src/Client/Fps.antt =====
-- `_FpsTracker`. Times are ticks of the monotonic clock; `t < now - window` is written with the
-- window on the left.
pub mod Window
use counter_cruiser.Prelude.{
  ℕ, zero, suc, ◌+◌, ◌-◌, ◌≤◌, ◌<◌, ◌≡◌, refl, ap, ◌∙◌, sym, Bool, true, false, List, [], ◌∷◌, ◌++◌,
  length, keep_if, ltb, leb, not, pos, Floats, arith, Bool-cases, inl, inr, if◌then◌else◌, All,
  All-append, append-nil, append_assoc,
}

pub record FpsTracker : Type 0 where
  pub window : ℕ
  pub timestamps : List ℕ

unfoldable pub init : ℕ → FpsTracker
init window = record { window = window; timestamps = [] }

-- `while timestamps and timestamps[0] < cutoff: timestamps.popleft()`
abbrev pub pop_old : ℕ → ℕ → List ℕ → List ℕ
pop_old window now [] = []
pop_old window now (t ∷ ts) = elim (ltb (t + window) now) [
  | true ↦ pop_old window now ts
  | false ↦ t ∷ ts
]

-- `timestamps[0]` and `timestamps[-1]`, of a deque that is not empty.
abbrev pub first : List ℕ → ℕ
first [] = 0
first (t ∷ ts) = t

abbrev pub last : List ℕ → ℕ
last [] = 0
last (t ∷ []) = t
last (t ∷ u ∷ ts) = last (u ∷ ts)

-- The frames and the span of the estimate; none stands for `0.0`.
pub data Rate : Type 0 where
  no_rate : Rate
  frames_per : ℕ → ℕ → Rate

abbrev pub rate : List ℕ → Rate
rate ts =
    if ltb (length ts) 2
    then no_rate
    else (let span = last ts - first ts in
        if ltb 0 span then frames_per (length ts - 1) span else no_rate)

abbrev pub rate_value : (F : Floats) → Rate → F.Float
rate_value F no_rate = F.of_int (pos 0)
rate_value F (frames_per n span) = F.div (F.of_int (pos n)) (F.seconds span)

-- The estimate is that of the timestamps left after the call.
unfoldable pub tick : ℕ → FpsTracker → FpsTracker
tick now f = record f { timestamps = pop_old f.window now (f.timestamps ++ now ∷ []) }
