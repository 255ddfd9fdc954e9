-- ===== src/Camera/Held.antt =====
-- Which calls are made of a device, by any use of the capture.
use counter_cruiser.Prelude.{
  Bool, true, false, ◌||◌, ◌≡◌, refl, ◌∙◌, Option, none, some, List, [], ◌∷◌, ◌++◌, append_assoc,
  append-nil, ℤ, arith,
}
use counter_cruiser.Camera.Defs.{
  DeviceCall, open_device, set_property, get_property, read_device, release_device, Opening,
  OpenCvCapture, unopened, open_capture, Reading, read, release,
}

-- The uses of a capture: `open`, `read`, `release`.
pub data Use (Frame : Type 0) : Type 0 where
  opens : Opening → ℤ → ℤ → ℤ → Use Frame
  reads : Reading Frame → Use Frame
  releases : Use Frame

unfoldable pub used : {Frame : Type 0} → Use Frame → OpenCvCapture → OpenCvCapture × List DeviceCall
used (opens answer index width height) c =
    let (size, c', calls) = open_capture answer index width height c in (c', calls)
used (reads answer) c = (c, (read answer c).1)
used releases c = release c

unfoldable pub all_used :
    {Frame : Type 0} → List (Use Frame) → OpenCvCapture → OpenCvCapture × List DeviceCall
unfolding used
all_used [] c = (c, [])
all_used (u ∷ us) c =
    let (c', calls) = used u c in let (end, more) = all_used us c' in (end, calls ++ more)

-- Is a device held?
abbrev pub holds : Option ℤ → Bool
holds none = false
holds (some index) = true

-- From `held`, every call is made of a device that was opened and has not been released.
abbrev pub Legal : Bool → List DeviceCall → Type 0
Legal held [] = Unit
Legal held (open_device index opened ∷ cs) = Legal (held || opened) cs
Legal held (set_property p v ∷ cs) = (held ≡ true) × Legal held cs
Legal held (get_property p ∷ cs) = (held ≡ true) × Legal held cs
Legal held (read_device ∷ cs) = (held ≡ true) × Legal held cs
Legal held (release_device ∷ cs) = (held ≡ true) × Legal false cs

-- Is a device held after the calls?
abbrev pub held_after : Bool → List DeviceCall → Bool
held_after held [] = held
held_after held (open_device index opened ∷ cs) = held_after (held || opened) cs
held_after held (set_property p v ∷ cs) = held_after held cs
held_after held (get_property p ∷ cs) = held_after held cs
held_after held (read_device ∷ cs) = held_after held cs
held_after held (release_device ∷ cs) = held_after false cs

Legal-append :
    (held : Bool) (xs ys : List DeviceCall)
    → Legal held xs
    → Legal (held_after held xs) ys
    → Legal held (xs ++ ys)
Legal-append held [] ys a b = b
Legal-append held (open_device index opened ∷ xs) ys a b = Legal-append (held || opened) xs ys a b
Legal-append held (set_property p v ∷ xs) ys a b = (a.0, Legal-append held xs ys a.1 b)
Legal-append held (get_property p ∷ xs) ys a b = (a.0, Legal-append held xs ys a.1 b)
Legal-append held (read_device ∷ xs) ys a b = (a.0, Legal-append held xs ys a.1 b)
Legal-append held (release_device ∷ xs) ys a b = (a.0, Legal-append false xs ys a.1 b)

held_after-append :
    (held : Bool) (xs ys : List DeviceCall)
    → held_after held (xs ++ ys) ≡ held_after (held_after held xs) ys
held_after-append held [] ys = refl
held_after-append held (open_device index opened ∷ xs) ys = held_after-append (held || opened) xs ys
held_after-append held (set_property p v ∷ xs) ys = held_after-append held xs ys
held_after-append held (get_property p ∷ xs) ys = held_after-append held xs ys
held_after-append held (read_device ∷ xs) ys = held_after-append held xs ys
held_after-append held (release_device ∷ xs) ys = held_after-append false xs ys

used-Legal :
    {Frame : Type 0} (u : Use Frame) (c : OpenCvCapture)
    → Legal (holds c.cap) (used u c).1
      × (held_after (holds c.cap) (used u c).1 ≡ holds (used u c).0.cap)
unfolding used open_capture read release
used-Legal (opens answer index width height) c = ground arith
used-Legal (reads answer) c = ground arith
used-Legal releases c = ground arith

-- The calls so far are legal, and the capture holds a device exactly if they leave one open.
abbrev pub Sound : OpenCvCapture → List DeviceCall → Type 0
Sound c calls = Legal false calls × (held_after false calls ≡ holds c.cap)

pub used-Sound :
    {Frame : Type 0} (u : Use Frame) (c : OpenCvCapture) (calls : List DeviceCall)
    → Sound c calls
    → Sound (used u c).0 (calls ++ (used u c).1)
used-Sound u c calls (legal, held) =
    let (more, last) = used-Legal u c in
    (
      Legal-append false calls (used u c).1 legal (rw held more),
      held_after-append false calls (used u c).1 ∙ rw held last,
    )

all_used-Sound :
    {Frame : Type 0} (us : List (Use Frame)) (c : OpenCvCapture) (calls : List DeviceCall)
    → Sound c calls
    → Sound (all_used us c).0 (calls ++ (all_used us c).1)
unfolding all_used
all_used-Sound [] c calls h = rw append-nil h
all_used-Sound (u ∷ us) c calls h =
    rw⁻¹ (append_assoc calls (used u c).1 (all_used us (used u c).0).1)
      (all_used-Sound us (used u c).0 (calls ++ (used u c).1) (used-Sound u c calls h))

pub holds-release : (c : OpenCvCapture) → holds (release c).0.cap ≡ false
unfolding release
holds-release c = ground arith

pub holds-open_capture :
    (answer : Opening) (index width height : ℤ) (c : OpenCvCapture)
    → c.cap ≡ none
    → holds (open_capture answer index width height c).1.cap ≡ answer.is_opened
unfolding open_capture
holds-open_capture answer index width height c h = ground (arith, h)

-- Any uses of a new capture make no call of a device that is not open: each size, frame and release is
-- asked of a device that was opened and not yet released. The capture holds a device at the end exactly
-- if the last device opened has not been released.
pub all_used-Sound_new :
    {Frame : Type 0} (us : List (Use Frame))
    → Sound (all_used us unopened).0 (all_used us unopened).1
unfolding unopened
all_used-Sound_new us = all_used-Sound us unopened [] (tt, refl)
