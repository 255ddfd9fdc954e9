-- ===== src/Server/Model.antt =====
-- counter_cruiser/server/model.py: `YOLOAdapter.detect` and `select_device`. What the network returns
-- is a parameter: for each result its raw boxes, after the conversions `int(…)` and `float(…)`.
use counter_cruiser.Prelude.{
  Bool, true, false, not, ◌||◌, List, [], ◌∷◌, ◌++◌, String, str_eq, ℤ, pos, eq_ℤ, Floats,
  if◌then◌else◌, ◌≡◌, arith, inl, inr, Bool-cases, refl, ◌∙◌, keep_if, map, sym, append-nil,
  append_assoc, map-append,
}
use counter_cruiser.Zone.{BoundingBox}

abbrev pub dog_class_id : ℤ
dog_class_id = pos 16

pub record RawBox (Float : Type 0) : Type 0 where
  pub cls : ℤ
  pub conf : Float
  pub x1 : ℤ
  pub y1 : ℤ
  pub x2 : ℤ
  pub y2 : ℤ

module _ (F : Floats) (threshold : F.Float) where
  open F use {Float, lt}

  abbrev pub to_box : RawBox Float → BoundingBox Float
  to_box b = record {
    x1 = b.x1;
    y1 = b.y1;
    x2 = b.x2;
    y2 = b.y2;
    confidence = b.conf;
    class_id = b.cls;
    class_name = "dog";
  }

  -- The loops over results and boxes, with `boxes` so far.
  unfoldable pub detect_boxes :
      List (RawBox Float) → List (BoundingBox Float) → List (BoundingBox Float)
  detect_boxes [] boxes = boxes
  detect_boxes (b ∷ bs) boxes = detect_boxes bs (
      if not (eq_ℤ b.cls dog_class_id) || lt b.conf threshold
      then boxes
      else boxes ++ to_box b ∷ [])

  unfoldable pub detect_results :
      List (List (RawBox Float)) → List (BoundingBox Float) → List (BoundingBox Float)
  unfolding detect_boxes
  detect_results [] boxes = boxes
  detect_results (r ∷ rs) boxes = detect_results rs (detect_boxes r boxes)

  unfoldable pub detect : List (List (RawBox Float)) → List (BoundingBox Float)
  unfolding detect_results
  detect results = detect_results results []

-- `has_torch`: torch could be imported. A backend without `mps` has none available.
unfoldable pub select_device : Bool → Bool → Bool → String → String
select_device has_torch cuda mps device =
    if not (str_eq device "auto")
    then device
    else if has_torch
    then (if cuda then "cuda:0" else if mps then "mps" else "cpu")
    else "cpu"

-- The boxes of all results, in order.
abbrev pub joined {ℓ} : {A : Type ℓ} → List (List A) → List A
joined [] = []
joined (xs ∷ xss) = xs ++ joined xss

module _ (F : Floats) (threshold : F.Float) where
  open F use {Float, lt}

  abbrev pub is_dog : RawBox Float → Bool
  is_dog b = elim (eq_ℤ b.cls dog_class_id) [ true ↦ not (lt b.conf threshold) | false ↦ false ]

  detect_boxes_lem :
      (bs : List (RawBox Float)) (boxes : List (BoundingBox Float))
      → detect_boxes F threshold bs boxes ≡ boxes ++ map (to_box F threshold) (keep_if is_dog bs)
  unfolding detect_boxes
  detect_boxes_lem [] boxes = sym (append-nil boxes)
  detect_boxes_lem (b ∷ bs) boxes =
      elim (Bool-cases (not (eq_ℤ b.cls dog_class_id) || lt b.conf threshold)) [
        | inl other ↦
            let dropped : keep_if is_dog (b ∷ bs) ≡ keep_if is_dog bs = ground arith in
            rw (other, dropped) (detect_boxes_lem bs boxes)
        | inr dog ↦
            let kept : keep_if is_dog (b ∷ bs) ≡ b ∷ keep_if is_dog bs = ground arith in
            rw (dog, kept)
              (detect_boxes_lem bs (boxes ++ to_box F threshold b ∷ [])
                ∙ append_assoc boxes (to_box F threshold b ∷ []) _)
      ]

  keep_if-append :
      (xs ys : List (RawBox Float))
      → keep_if is_dog (xs ++ ys) ≡ keep_if is_dog xs ++ keep_if is_dog ys
  keep_if-append [] ys = refl
  keep_if-append (x ∷ xs) ys = ground (arith, keep_if-append xs ys)

  detect_results_lem :
      (rs : List (List (RawBox Float))) (boxes : List (BoundingBox Float))
      → detect_results F threshold rs boxes
        ≡ boxes ++ map (to_box F threshold) (keep_if is_dog (joined rs))
  unfolding detect_results
  detect_results_lem [] boxes = sym (append-nil boxes)
  detect_results_lem (r ∷ rs) boxes =
      rw
        (
          detect_results_lem rs (detect_boxes F threshold r boxes),
          detect_boxes_lem r boxes,
          keep_if-append,
          map-append,
        )
        (append_assoc boxes _ _)

  -- Detection returns the dogs of all results, in order: those boxes of class 16 whose confidence is
  -- not below the threshold, and no others.
  pub detect_lem :
      (results : List (List (RawBox Float)))
      → detect F threshold results ≡ map (to_box F threshold) (keep_if is_dog (joined results))
  unfolding detect
  detect_lem results = detect_results_lem results []
