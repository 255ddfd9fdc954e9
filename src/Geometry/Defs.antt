-- ===== src/Geometry/Defs.antt =====
-- The functions of geometry.py.
use counter_cruiser.Prelude.{
  Bool, true, false, ◌&&◌, not, List, [], ◌∷◌, any, length, ltb, if◌then◌else◌, String, update, ℤ,
  pos, ◌+ℤ◌, ◌-ℤ◌, leb_ℤ, eq_ℤ, Result, ok, err, zero_division_error, ◌>>=◌, Floats,
}
use counter_cruiser.Zone.{Zone, BoundingBox}

pub record FrameAnalysis : Type 0 where
  pub elevated : Bool
  pub triggered_zones : List String

-- The body of the loop over the boxes.
abbrev pub collect : FrameAnalysis → Bool × List String → FrameAnalysis
collect acc (is_el, zone_ids) =
    if is_el
    then record { elevated = true; triggered_zones = update acc.triggered_zones zone_ids }
    else acc

module _ (F : Floats) where
  open F use {Float, of_int, div, div_int, lt}

  -- The four corners and the centre.
  unfoldable pub box_test_points : BoundingBox Float → List (Float × Float)
  unfolding ◌+ℤ◌
  box_test_points box =
      let cx = div (of_int (box.x1 +ℤ box.x2)) (of_int (pos 2)) in
      let cy = div (of_int (box.y1 +ℤ box.y2)) (of_int (pos 2)) in
      (of_int box.x1, of_int box.y1)
      ∷ (of_int box.x2, of_int box.y1)
      ∷ (of_int box.x2, of_int box.y2)
      ∷ (of_int box.x1, of_int box.y2)
      ∷ (cx, cy)
      ∷ []

  module _ (point_polygon_test : List (ℤ × ℤ) → Float × Float → ℤ) where
    -- The inner loop with its `break`.
    abbrev pub touches : BoundingBox Float → Zone → Bool
    touches box zone =
        any (λ pt. leb_ℤ (pos 0) (point_polygon_test zone.polygon pt)) (box_test_points box)

    unfoldable pub check_zones : BoundingBox Float → List Zone → List String
    check_zones box [] = []
    check_zones box (zone ∷ zones) =
        let rest = check_zones box zones in
        if not zone.enabled then rest else if touches box zone then zone.id ∷ rest else rest

    -- Python's `/` on integers raises `ZeroDivisionError` for a frame height of 0.
    unfoldable pub size_ratio : BoundingBox Float → ℤ → Result Float
    size_ratio box frame_height =
        if eq_ℤ frame_height (pos 0)
        then err zero_division_error
        else ok (div_int (box.y2 -ℤ box.y1) frame_height)

    unfoldable pub analyze_dog_position :
        BoundingBox Float → List Zone → ℤ → Float → Result (Bool × List String)
    unfolding size_ratio
    analyze_dog_position box zones frame_height min_size_ratio = do
      ratio ← size_ratio box frame_height
      let triggered = check_zones box zones
      ok ((lt min_size_ratio ratio && ltb 0 (length triggered), triggered))

    unfoldable pub analyze_from :
        FrameAnalysis → List (BoundingBox Float) → List Zone → ℤ → Float → Result FrameAnalysis
    analyze_from acc [] zones frame_height min_size_ratio = ok acc
    analyze_from acc (box ∷ boxes) zones frame_height min_size_ratio = do
      verdict ← analyze_dog_position box zones frame_height min_size_ratio
      analyze_from (collect acc verdict) boxes zones frame_height min_size_ratio

    unfoldable pub analyze_detections :
        List (BoundingBox Float) → List Zone → ℤ → Float → Result FrameAnalysis
    unfolding analyze_from
    analyze_detections = analyze_from (record { elevated = false; triggered_zones = [] })
