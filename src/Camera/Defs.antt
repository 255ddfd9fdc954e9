-- ===== src/Camera/Defs.antt =====
-- The capture, which holds the index of the device that it has opened.
use counter_cruiser.Prelude.{
  Bool, true, false, Option, none, some, List, [], ◌∷◌, ℤ, Result, ok, err, other_error, ◌>>=◌,
  if◌then◌else◌,
}

pub data Property : Type 0 where
  frame_width frame_height : Property

-- A device is opened together with its answer to `isOpened`.
pub data DeviceCall : Type 0 where
  open_device : ℤ → Bool → DeviceCall
  set_property : Property → ℤ → DeviceCall
  get_property : Property → DeviceCall
  read_device release_device : DeviceCall

-- What the device answers while it is opened: `isOpened`, and `int` of the sizes, which raises for a
-- float that is no number.
pub record Opening : Type 0 where
  pub is_opened : Bool
  pub width : Result ℤ
  pub height : Result ℤ

pub record OpenCvCapture : Type 0 where
  pub cap : Option ℤ

unfoldable pub unopened : OpenCvCapture
unopened = record { cap = none }

-- The sizes are read one after the other.
abbrev sizes_read : Result ℤ → List DeviceCall
sizes_read (err e) = get_property frame_width ∷ []
sizes_read (ok w) = get_property frame_width ∷ get_property frame_height ∷ []

-- `open`: the size that the camera has, or the exception; the capture; and the calls.
unfoldable pub open_capture :
    Opening → ℤ → ℤ → ℤ → OpenCvCapture → Result (ℤ × ℤ) × OpenCvCapture × List DeviceCall
open_capture answer index width height c =
    if answer.is_opened
    then (
      answer.width >>= (λ w. answer.height >>= λ h. ok (w, h)),
      record { cap = some index },
      open_device index true
          ∷ set_property frame_width width
          ∷ set_property frame_height height
          ∷ sizes_read answer.width,
    )
    else (err other_error, c, open_device index false ∷ [])

-- The device answers with a flag and an image.
abbrev pub Reading : Type 0 → Type 0
Reading Frame = Bool × Option Frame

abbrev if_ok : {Frame : Type 0} → Reading Frame → Option Frame
if_ok (true, frame) = frame
if_ok (false, frame) = none

unfoldable pub read :
    {Frame : Type 0} → Reading Frame → OpenCvCapture → Option Frame × List DeviceCall
read answer c = elim c.cap [ none ↦ (none, []) | some index ↦ (if_ok answer, read_device ∷ []) ]

unfoldable pub release : OpenCvCapture → OpenCvCapture × List DeviceCall
release c = elim c.cap [
  | none ↦ (c, [])
  | some index ↦ (record { cap = none }, release_device ∷ [])
]
