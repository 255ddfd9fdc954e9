-- ===== src/Deterrent/Settled.antt =====
-- The level of the pin between calls, over any events.
use counter_cruiser.Prelude.{◌≡◌, refl, sym, ap, ◌∙◌, List, [], ◌∷◌, ◌++◌, arith}
use counter_cruiser.Deterrent.Defs.{
  Ended, returned, raised, interrupted, Level, low, high, Event, setmode, setup_low, sleep, release,
  output, record_attempt, Calls, DeterrentHandler, trigger,
}
use counter_cruiser.Deterrent.Burst.{last_level, last_low, left_by}

last_level-append :
    (l : Level) (xs ys : List Event) → last_level l (xs ++ ys) ≡ last_level (last_level l xs) ys
last_level-append l [] ys = refl
last_level-append l (output high x ∷ xs) ys = last_level-append high xs ys
last_level-append l (output low returned ∷ xs) ys = last_level-append low xs ys
last_level-append l (output low raised ∷ xs) ys = last_level-append l xs ys
last_level-append l (output low interrupted ∷ xs) ys = last_level-append l xs ys
last_level-append l (setmode ∷ xs) ys = last_level-append l xs ys
last_level-append l (setup_low ∷ xs) ys = last_level-append l xs ys
last_level-append l (sleep ∷ xs) ys = last_level-append l xs ys
last_level-append l (release ∷ xs) ys = last_level-append l xs ys
last_level-append l (record_attempt b ∷ xs) ys = last_level-append l xs ys

last_low-append :
    (x : Ended) (xs ys : List Event) → last_low x (xs ++ ys) ≡ last_low (last_low x xs) ys
last_low-append x [] ys = refl
last_low-append x (output high y ∷ xs) ys = last_low-append x xs ys
last_low-append x (output low y ∷ xs) ys = last_low-append y xs ys
last_low-append x (setmode ∷ xs) ys = last_low-append x xs ys
last_low-append x (setup_low ∷ xs) ys = last_low-append x xs ys
last_low-append x (sleep ∷ xs) ys = last_low-append x xs ys
last_low-append x (release ∷ xs) ys = last_low-append x xs ys
last_low-append x (record_attempt b ∷ xs) ys = last_low-append x xs ys

-- The pin is low exactly if the last call that drives it low returned, or if there was none.
abbrev pub Settled : List Event → Type 0
Settled events = last_level low events ≡ left_by (last_low returned events)

-- Events that keep the two in step, whatever they were.
pub append-Settled :
    (xs ys : List Event)
    → ((x : Ended) → last_level (left_by x) ys ≡ left_by (last_low x ys))
    → Settled xs
    → Settled (xs ++ ys)
append-Settled xs ys step h =
    last_level-append low xs ys
    ∙ ap (λ l. last_level l ys) h
    ∙ step (last_low returned xs)
    ∙ ap left_by (sym (last_low-append returned xs ys))

pub trigger-settles :
    (c : Calls) (h : DeterrentHandler) (x : Ended)
    → last_level (left_by x) (trigger c h).1 ≡ left_by (last_low x (trigger c h).1)
unfolding trigger
trigger-settles c h x = ground arith
