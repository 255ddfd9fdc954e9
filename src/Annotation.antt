-- ===== src/Annotation.antt =====
-- counter_cruiser/client/annotation.py: what is drawn on a copy of the frame, in order. The drawing calls
-- of cv2, the formatted label of a box and the formatted time are parameters.
use counter_cruiser.Prelude.{
  ℕ, Bool, List, [], ◌∷◌, ◌++◌, map, String, contains, ℤ, pos, ◌-ℤ◌, leb_ℤ, if◌then◌else◌,
}
use counter_cruiser.Zone.{Zone, BoundingBox}

-- BGR
abbrev pub Color : Type 0
Color = ℕ × ℕ × ℕ

abbrev pub elevated_box_color : Color
elevated_box_color = (0, 0, 255)

abbrev pub floor_box_color : Color
floor_box_color = (0, 200, 0)

abbrev pub triggered_zone_color : Color
triggered_zone_color = (0, 0, 255)

abbrev pub idle_zone_color : Color
idle_zone_color = (0, 200, 0)

abbrev pub text_color : Color
text_color = (255, 255, 255)

-- `cv2.rectangle`, `cv2.putText` and `cv2.polylines`, with the arguments that vary; the rectangle and the
-- closed polygon are 2 thick, the text is 1 thick at scale 0.5.
pub data Shape : Type 0 where
  rectangle : ℤ × ℤ → ℤ × ℤ → Color → Shape
  put_text : String → ℤ × ℤ → Color → Shape
  polylines : List (ℤ × ℤ) → Color → Shape

-- `max(v, 0)`
abbrev pub at_least_zero : ℤ → ℤ
at_least_zero v = if leb_ℤ (pos 0) v then v else pos 0

-- The copy of the frame, and what is drawn on it.
pub record Annotated (Frame : Type 0) : Type 0 where
  pub base : Frame
  pub shapes : List Shape

-- `annotate_frame(..., include_boxes, include_zones, elevated)`
pub record Options : Type 0 where
  pub include_boxes : Bool
  pub include_zones : Bool
  pub elevated : Bool

abbrev pub zone_color : List String → Zone → Color
zone_color triggered_zones zone =
    if contains zone.id triggered_zones then triggered_zone_color else idle_zone_color

abbrev pub draw_zones : List String → List Zone → List Shape
draw_zones triggered_zones zones =
    map (λ z. polylines z.polygon (zone_color triggered_zones z)) zones

module _ {Float : Type 0} (label : BoundingBox Float → String) where
  abbrev pub draw_boxes : Color → List (BoundingBox Float) → List Shape
  draw_boxes box_color [] = []
  draw_boxes box_color (box ∷ detections) =
      rectangle (box.x1, box.y1) (box.x2, box.y2) box_color
      ∷ put_text (label box) (box.x1, at_least_zero (box.y1 -ℤ pos 5)) box_color
      ∷ draw_boxes box_color detections

  unfoldable pub annotate_frame :
      {Frame : Type 0}
      → (Frame → Frame)
      → String
      → Options
      → Frame
      → List (BoundingBox Float)
      → List Zone
      → List String
      → Annotated Frame
  annotate_frame copy timestamp o frame detections zones triggered_zones =
      let box_color = if o.elevated then elevated_box_color else floor_box_color in
      record {
        base = copy frame;
        shapes =
            (if o.include_boxes then draw_boxes box_color detections else [])
            ++ ((if o.include_zones then draw_zones triggered_zones zones else [])
                ++ put_text timestamp (pos 10, pos 20) text_color ∷ []);
      }
