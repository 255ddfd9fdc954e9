-- ===== src/Tests/Analysis.antt =====
-- Debouncing, geometry, detection and the frame codec.
use counter_cruiser.Prelude.{
  ◌≡◌, ◌↔◌, ◌≤◌, ◌-ℤ◌, ◌+ℤ◌, zero, negsuc, suc, refl, Bool, true, false, List, [], ◌∷◌, length,
  contains, Exists, String, ℤ, pos, ok, arith,
}
use counter_cruiser.Debounce.{FrameRecord, init, add, is_consecutive_elevated}
use counter_cruiser.Debounce.Window.{add_all, window_refines}
use counter_cruiser.Geometry.{
  FrameAnalysis, box_test_points, check_zones, size_ratio, analyze_dog_position, analyze_detections,
}
use counter_cruiser.Geometry.Laws.{Triggers, IsElevated, analyze_detections_lem}
use counter_cruiser.Server.Model.{RawBox, to_box, detect, detect_lem}
use counter_cruiser.Protocol.{Codec, encoded}
use counter_cruiser.Tests.Fixtures.{floats, in_square, counter, table, box, seen}

abbrev frames : List FrameRecord
frames = seen (pos 1) true ∷ seen (pos 2) false ∷ seen (pos 3) true ∷ seen (pos 4) false ∷ []

frames_found : is_consecutive_elevated (pos 2) (add_all frames (init 3)) ≡ false
unfolding is_consecutive_elevated add_all init add
frames_found = refl

window_refines_example :
    let h = add_all frames (init 3) in
    (length h.records ≤ 3)
    × (h.records ≡ seen (pos 2) false ∷ seen (pos 3) true ∷ seen (pos 4) false ∷ [])
    × (is_consecutive_elevated (pos 2) h ≡ false)
window_refines_example = window_refines 3 (pos 2) frames (omega arith)

analyze_detections_lem_example :
    (a : FrameAnalysis) × (analyze_detections floats in_square
        (box ∷ [])
        (counter ∷ table ∷ [])
        (pos 480)
        (pos 50)
      ≡ ok a)
    × ((a.elevated ≡ true)
        ↔ Exists (IsElevated floats in_square (counter ∷ table ∷ []) (pos 480) (pos 50)) (box ∷ []))
    × ((k : String)
        → (contains k a.triggered_zones ≡ true)
          ↔ Exists
              (λ b.
                IsElevated floats in_square (counter ∷ table ∷ []) (pos 480) (pos 50) b
                × Exists (λ z. (z.id ≡ k) × Triggers floats in_square b z) (counter ∷ table ∷ []))
              (box ∷ []))
analyze_detections_lem_example =
    analyze_detections_lem floats in_square (counter ∷ table ∷ []) (pos 480) (pos 50) (box ∷ [])
      (ground arith)

-- The box is too small for the ratio.
abbrev floor : FrameAnalysis
floor = record { elevated = false; triggered_zones = [] }

box_on_floor :
    analyze_detections floats in_square (box ∷ []) (counter ∷ []) (pos 480) (pos 80) ≡ ok floor
unfolding analyze_detections analyze_dog_position size_ratio box_test_points check_zones ◌-ℤ◌ ◌+ℤ◌
box_on_floor = refl

-- A dog, a dog below the threshold, and a cat.
abbrev raw : ℤ → ℤ → RawBox ℤ
raw cls conf = record { cls = cls; conf = conf; x1 = pos 1; y1 = pos 2; x2 = pos 3; y2 = pos 4 }

abbrev results : List (List (RawBox ℤ))
results = (raw (pos 16) (pos 6) ∷ raw (pos 15) (pos 9) ∷ []) ∷ (raw (pos 16) (pos 4) ∷ []) ∷ []

detect_lem_example :
    detect floats (pos 5) results ≡ to_box floats (pos 5) (raw (pos 16) (pos 6)) ∷ []
detect_lem_example = detect_lem floats (pos 5) results

abbrev positive : ℤ → Bool
positive (pos zero) = false
positive (pos (suc n)) = true
positive (negsuc n) = false

-- Frames are their own text, which the encoder refuses if the quality is 0.
abbrev codec : Codec
codec = record {
  Frame = String;
  Image = String;
  Bytes = String;
  imencode = λ image quality. encoded (positive quality) image;
  imdecode = λ bytes. bytes;
  b64encode = λ bytes. bytes;
  b64decode = λ text. ok text;
  height = λ image. pos 480;
  width = λ image. pos 640;
}
