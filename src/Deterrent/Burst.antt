-- ===== src/Deterrent/Burst.antt =====
-- What a burst leaves: the level of the pin, the record of the attempt, and the exception.
use counter_cruiser.Prelude.{
  ◌≡◌, ◌↔◌, Bool, true, false, ◌&&◌, ◌||◌, if◌then◌else◌, List, [], ◌∷◌, arith,
}
use counter_cruiser.Deterrent.Defs.{
  Ended, returned, raised, interrupted, ended_well, Level, low, high, Event, output, record_attempt,
  Calls, DeterrentHandler, construct, is_operational, trigger, cleanup,
}

-- The level that the pin is taken to have, from a level before: a call that drives it high may have done so
-- even where it raised, and one that drives it low has surely done so only where it returned.
abbrev pub last_level : Level → List Event → Level
last_level l [] = l
last_level l (output high ended ∷ es) = last_level high es
last_level l (output low returned ∷ es) = last_level low es
last_level l (output low raised ∷ es) = last_level l es
last_level l (output low interrupted ∷ es) = last_level l es
last_level l (e ∷ es) = last_level l es

-- How the last call that drives the pin low ended, from how one before did.
abbrev pub last_low : Ended → List Event → Ended
last_low x [] = x
last_low x (output low ended ∷ es) = last_low ended es
last_low x (e ∷ es) = last_low x es

-- The level in which a call that drives the pin low, after one that drives it high, leaves it.
abbrev pub left_by : Ended → Level
left_by returned = low
left_by raised = high
left_by interrupted = high

-- The outcomes recorded, in order.
abbrev pub recorded : List Event → List Bool
recorded [] = []
recorded (record_attempt b ∷ es) = b ∷ recorded es
recorded (e ∷ es) = recorded es

-- The outcome that is recorded: only an `Exception` makes it a failure.
abbrev counts_as : Ended → Ended → Bool
counts_as raised slept = false
counts_as returned raised = false
counts_as returned _ = true
counts_as interrupted _ = true

abbrev is_interrupted : Ended → Bool
is_interrupted interrupted = true
is_interrupted _ = false

-- The burst, before its `finally` block, is left by an interrupt.
abbrev burst_interrupted : Calls → Bool
burst_interrupted c =
    is_interrupted c.output_high || (ended_well c.output_high && is_interrupted c.sleep_burst)

-- The calls that drive the pin, in order.
abbrev pub driven : List Event → List (Level × Ended)
driven [] = []
driven (output l ended ∷ es) = (l, ended) ∷ driven es
driven (e ∷ es) = driven es

-- On every way the calls of an operational handler can end, interrupts included: the pin is driven exactly
-- twice, high first and then low, and is known to be low afterwards exactly if the second call returned. An attempt is
-- recorded, once, unless that call was interrupted: as failed exactly if driving the pin high raised an
-- `Exception`, or returned and the wait raised one, so that an interrupted burst is recorded as a success.
-- The trigger then ends as the record does, if that does not return, and else with the interrupt of the burst
-- or normally. A handler that is not operational makes no call at all.
pub trigger_lem :
    (c : Calls) (h : DeterrentHandler)
    → (h.enabled && h.has_gpio ≡ false → trigger c h ≡ (returned, []))
      × (h.enabled && h.has_gpio ≡ true
          → (driven (trigger c h).1 ≡ (high, c.output_high) ∷ (low, c.output_low) ∷ [])
            × (last_level low (trigger c h).1 ≡ left_by c.output_low)
            × (recorded (trigger c h).1 ≡ (
                if is_interrupted c.output_low
                then []
                else counts_as c.output_high c.sleep_burst ∷ []))
            × ((trigger c h).0 ≡ (
                if is_interrupted c.output_low
                then interrupted
                else if ended_well c.record_outcome
                then (if burst_interrupted c then interrupted else returned)
                else c.record_outcome)))
unfolding trigger
trigger_lem c h = ground arith

-- The handler is operational exactly if it is enabled, the library can be imported and both setup
-- calls return; then it has the library. After `cleanup` no trigger makes a call, and a second
-- `cleanup` makes none either.
pub lifecycle :
    (enabled importable : Bool) (setmode_ends setup_ends : Ended) (c : Calls)
    → let h = (construct enabled importable setmode_ends setup_ends).0 in
      ((is_operational h ≡ true) ↔ (
        (enabled ≡ true)
        × (importable ≡ true)
        × (setmode_ends ≡ returned)
        × (setup_ends ≡ returned)))
      × (h.has_gpio ≡ h.enabled)
      × (trigger c (cleanup h).0 ≡ (returned, []))
      × (cleanup (cleanup h).0 ≡ ((cleanup h).0, []))
unfolding construct trigger cleanup
lifecycle enabled importable setmode_ends setup_ends c = ground arith
