-- ===== src/Deterrent/Defs.antt =====
-- The handler, with every `try` of its methods.
use counter_cruiser.Prelude.{Bool, true, false, ◌&&◌, List, [], ◌∷◌, ◌++◌, if◌then◌else◌}

-- A call returns, raises below `Exception`, or raises another `BaseException` (an interrupt).
pub data Ended : Type 0 where
  returned raised interrupted : Ended

pub data Level : Type 0 where
  low high : Level

-- The calls in the order in which they are made: a pin is driven, with how that call ended, the burst is
-- waited for, an attempt is recorded.
pub data Event : Type 0 where
  setmode setup_low sleep release : Event
  output : Level → Ended → Event
  record_attempt : Bool → Event

pub record Calls : Type 0 where
  pub output_high : Ended
  pub sleep_burst : Ended
  pub output_low : Ended
  pub record_outcome : Ended

-- `has_gpio`: `_gpio` is not None.
pub record DeterrentHandler : Type 0 where
  pub has_gpio : Bool
  pub enabled : Bool

-- `_setup`, where `importable` says if `RPi.GPIO` can be imported: the events, and the handler that
-- the constructor builds. An interrupt during the setup ends the program and is left out.
abbrev pub ended_well : Ended → Bool
ended_well returned = true
ended_well raised = false
ended_well interrupted = false

unfoldable pub construct : Bool → Bool → Ended → Ended → DeterrentHandler × List Event
construct enabled importable setmode_ends setup_ends =
    if enabled && importable
    then (if ended_well setmode_ends
        then (
          record { has_gpio = ended_well setup_ends; enabled = ended_well setup_ends },
          setmode ∷ setup_low ∷ [],
        )
        else (record { has_gpio = false; enabled = false }, setmode ∷ []))
    else (record { has_gpio = false; enabled = false }, [])

abbrev pub is_operational : DeterrentHandler → Bool
is_operational h = h.enabled

-- The body of the outer `try`: how it ends, and its calls.
abbrev pub burst : Calls → Ended × List Event
burst c = elim c.output_high [
  | returned ↦ (c.sleep_burst, output high c.output_high ∷ sleep ∷ [])
  | raised ↦ (raised, output high c.output_high ∷ [])
  | interrupted ↦ (interrupted, output high c.output_high ∷ [])
]

-- `succeeded` is cleared by `except Exception` alone.
abbrev pub succeeded : Ended → Bool
succeeded returned = true
succeeded raised = false
succeeded interrupted = true

-- What is left to raise after the `finally` block, if that block itself does not raise.
abbrev pub pending : Ended → Ended
pending returned = returned
pending raised = returned
pending interrupted = interrupted

abbrev pub after_record : Ended → Ended → Ended
after_record returned b = pending b
after_record raised b = raised
after_record interrupted b = interrupted

-- The `finally` block, after a burst that ended as `b`.
abbrev pub finish : Calls → Ended → Ended × List Event
finish c b = elim c.output_low [
  | returned ↦
      (after_record c.record_outcome b, output low c.output_low ∷ record_attempt (succeeded b) ∷ [])
  | raised ↦
      (after_record c.record_outcome b, output low c.output_low ∷ record_attempt (succeeded b) ∷ [])
  | interrupted ↦ (interrupted, output low c.output_low ∷ [])
]

unfoldable pub trigger : Calls → DeterrentHandler → Ended × List Event
trigger c h =
    if h.enabled && h.has_gpio
    then (let (b, events) = burst c in let (ended, more) = finish c b in (ended, events ++ more))
    else (returned, [])

-- `cleanup`, which logs what `GPIO.cleanup` raises.
unfoldable pub cleanup : DeterrentHandler → DeterrentHandler × List Event
cleanup h =
    if h.has_gpio then (record { has_gpio = false; enabled = false }, release ∷ []) else (h, [])
