-- ===== src/Alerts/Manager/Spacing.antt =====
-- The cooldown over whole runs: alerts as they come, against the log of those that were dispatched.
use counter_cruiser.Prelude.{
  ℕ, ◌+◌, ◌≤◌, ◌≡◌, refl, Bool, true, false, Option, none, some, List, [], ◌∷◌, all, All, Exists,
  String, contains, lookup, insert, lookup-insert, arith, Bool-cases, inl, inr, ◌⊎◌, if◌then◌else◌,
}
use counter_cruiser.Alerts.Manager.Defs.{
  Outcome, Handler, AlertManager, init, in_cooldown, stamp, all_handlers, within_cooldown,
  after_attempt, maybe_alert,
}

-- An alert with the time at which it comes, and the zones that it names.
abbrev pub Event : Type 0
Event = ℕ × List String

-- A handler that records what is dispatched, newest first, and ends as it is told to.
abbrev pub recorder : Outcome → Handler Event (List Event)
recorder outcome = record {
  trigger = λ event log. (outcome, event ∷ log);
  cleanup = λ log. (outcome, log);
}

unfoldable pub run :
    List Event
    → AlertManager Event (List Event)
    → List Event
    → AlertManager Event (List Event) × List Event
run [] m log = (m, log)
run (e ∷ es) m log = let (m', log') = maybe_alert (λ event. event.1) e.0 e m log in run es m' log'

-- The alerts come in the order of the clock.
abbrev pub InOrder : ℕ → List Event → Type 0
InOrder now [] = Unit
InOrder now (e ∷ es) = (now ≤ e.0) × InOrder e.0 es

-- Every dispatched alert names no zone, or some zone of it that no alert dispatched earlier named
-- less than a cooldown before.
abbrev pub IsSpaced : ℕ → List Event → Type 0
IsSpaced cooldown [] = Unit
IsSpaced cooldown (e ∷ older) =
    ((e.1 ≡ [])
      ⊎ Exists (λ z. All (λ e'. contains z e'.1 ≡ true → e'.0 + cooldown ≤ e.0) older) e.1)
    × IsSpaced cooldown older

-- The log runs backwards in time from `now`.
abbrev Backwards : ℕ → List Event → Type 0
Backwards now [] = Unit
Backwards now (e ∷ older) = (e.0 ≤ now) × Backwards e.0 older

latest : String → List Event → Option ℕ
latest z [] = none
latest z (e ∷ older) = if contains z e.1 then some e.0 else latest z older

lookup-stamp :
    (z : String) (zones : List String) (now : ℕ) (d : List (String × ℕ))
    → lookup z (stamp zones now d) ≡ (if contains z zones then some now else lookup z d)
lookup-stamp z [] now d = refl
lookup-stamp z (k ∷ ks) now d =
    ground (arith, lookup-stamp z ks now (insert k now d), lookup-insert k z now d)

All-older :
    (z : String) (bound now : ℕ) (cooldown : ℕ) (log : List Event)
    → Backwards now log
    → now + cooldown ≤ bound
    → All (λ e. contains z e.1 ≡ true → e.0 + cooldown ≤ bound) log
All-older z bound now cooldown [] b h = tt
All-older z bound now cooldown (e ∷ older) b h =
    (λ c. omega arith, All-older z bound e.0 cooldown older b.1 (omega arith))

-- A zone whose latest alert is a cooldown old has no alert younger than that.
out_of_cooldown :
    (z : String) (cooldown t now : ℕ) (log : List Event)
    → Backwards now log
    → in_cooldown cooldown t (latest z log) ≡ false
    → All (λ e. contains z e.1 ≡ true → e.0 + cooldown ≤ t) log
unfolding latest
out_of_cooldown z cooldown t now [] b h = tt
out_of_cooldown z cooldown t now (e ∷ older) b h = elim (Bool-cases (contains z e.1)) [
  | inl named ↦
      let old : e.0 + cooldown ≤ t = ground arith in
      (λ c. old, All-older z t e.0 cooldown older b.1 old)
  | inr other ↦ (λ c. cc, out_of_cooldown z cooldown t e.0 older b.1 (ground arith))
]

some_out :
    (test : String → Bool) (P : String → Type 0)
    → ((z : String) → test z ≡ false → P z)
    → (zones : List String) → all test zones ≡ false
    → Exists P zones
some_out test P h [] e = cc
some_out test P h (z ∷ zones) e = elim (Bool-cases (test z)) [
  | inl within ↦ inr (some_out test P h zones (rw within at e))
  | inr out ↦ inl (h z out)
]

record Tracks (outcome : Outcome) (cooldown now : ℕ) (m : AlertManager Event (List Event))
    (log : List Event) : Type 0 where
  handler : all_handlers m ≡ recorder outcome ∷ []
  cooldown_seconds : m.cooldown_seconds ≡ cooldown
  latest_alert : (z : String) → lookup z m.last_alert ≡ latest z log
  backwards : Backwards now log
  spaced : IsSpaced cooldown log

proceeds :
    (outcome : Outcome) (cooldown now : ℕ) (e : Event) (m : AlertManager Event (List Event))
    (log : List Event)
    → now ≤ e.0
    → Tracks outcome cooldown now m log
    → within_cooldown m e.1 e.0 ≡ false
    → (e.1 ≡ []) ⊎ Exists (λ z. All (λ e'. contains z e'.1 ≡ true → e'.0 + cooldown ≤ e.0) log) e.1
unfolding within_cooldown
proceeds outcome cooldown now (t, []) m log h k out = inl refl
proceeds outcome cooldown now (t, z ∷ zs) m log h k out = inr (
    some_out _ _
      (λ y e.
        out_of_cooldown y cooldown t now log k.backwards
          (rw (← k.latest_alert y, ← k.cooldown_seconds) e))
      (z ∷ zs) out)

Backwards-later :
    (now later : ℕ) (log : List Event) → now ≤ later → Backwards now log → Backwards later log
Backwards-later now later [] h b = tt
Backwards-later now later (e ∷ older) h b = (omega arith, b.1)

after_recorder : (o : Outcome) (log : List Event) → after_attempt (o, log) ≡ log
after_recorder Outcome.returned log = refl
after_recorder Outcome.raised log = refl

dispatched-Tracks :
    (outcome : Outcome) (cooldown now : ℕ) (e : Event) (m : AlertManager Event (List Event))
    (log : List Event)
    → now ≤ e.0
    → Tracks outcome cooldown now m log
    → within_cooldown m e.1 e.0 ≡ false
    → Tracks outcome cooldown e.0 (record m { last_alert = stamp e.1 e.0 m.last_alert }) (e ∷ log)
unfolding all_handlers latest
dispatched-Tracks outcome cooldown now e m log h k out = record {
  handler = k.handler;
  cooldown_seconds = k.cooldown_seconds;
  latest_alert = λ z. rw (lookup-stamp z e.1 e.0 m.last_alert, k.latest_alert z);
  backwards = (omega arith, Backwards-later now e.0 log h k.backwards);
  spaced = (proceeds outcome cooldown now e m log h k out, k.spaced);
}

maybe_alert-Tracks :
    (outcome : Outcome) (cooldown now : ℕ) (e : Event) (m : AlertManager Event (List Event))
    (log : List Event)
    → now ≤ e.0
    → Tracks outcome cooldown now m log
    → let (m', log') = maybe_alert (λ event. event.1) e.0 e m log in
      Tracks outcome cooldown e.0 m' log'
unfolding maybe_alert
maybe_alert-Tracks outcome cooldown now e m log h k =
    elim (Bool-cases (within_cooldown m e.1 e.0)) [
      | inl within ↦ rw within (record {
        handler = k.handler;
        cooldown_seconds = k.cooldown_seconds;
        latest_alert = k.latest_alert;
        backwards = Backwards-later now e.0 log h k.backwards;
        spaced = k.spaced;
      })
      | inr out ↦
          rw (out, k.handler, after_recorder outcome (e ∷ log))
            (dispatched-Tracks outcome cooldown now e m log h k out)
    ]

run-IsSpaced :
    (outcome : Outcome) (cooldown now : ℕ) (es : List Event) (m : AlertManager Event (List Event))
    (log : List Event)
    → InOrder now es
    → Tracks outcome cooldown now m log
    → IsSpaced cooldown (run es m log).1
unfolding run
run-IsSpaced outcome cooldown now [] m log o k = k.spaced
run-IsSpaced outcome cooldown now (e ∷ es) m log o k =
    let (m', log') = maybe_alert (λ event. event.1) e.0 e m log in
    run-IsSpaced outcome cooldown e.0 es m' log' o.1
      (maybe_alert-Tracks outcome cooldown now e m log o.0 k)

-- From a fresh manager, over any alerts in the order of the clock and whether or not the handler
-- raises: each alert that is dispatched names no zone at all, or some zone of it that no alert
-- dispatched earlier named less than a cooldown before.
pub cooldown_spacing :
    (outcome : Outcome) (cooldown : ℕ) (es : List Event)
    → InOrder 0 es
    → IsSpaced cooldown (run es (init (recorder outcome ∷ []) cooldown none) []).1
unfolding init all_handlers latest
cooldown_spacing outcome cooldown es o = run-IsSpaced outcome cooldown 0 es _ [] o (record {
  handler = refl;
  cooldown_seconds = refl;
  latest_alert = λ z. refl;
  backwards = tt;
  spaced = tt;
})
