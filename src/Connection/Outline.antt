-- ===== src/Connection/Outline.antt =====
-- An attempt of the whole session as an attempt of Transport.Run, its outline.
use counter_cruiser.Prelude.{
  Bool, true, false, not, Option, none, some, List, [], ◌∷◌, ◌++◌, append_assoc, append-nil, ◌≡◌,
  ◌≢◌, refl, sym, ℤ, ℕ, arith, Result, ok, err, Exception, if◌then◌else◌,
}
use counter_cruiser.Transport.{stop}
use counter_cruiser.Transport.Run
use counter_cruiser.Transport.Run.{
  Call, open_camera, release_camera, wait, connection_change, is_caught, turn, released,
}
use counter_cruiser.Connection.Defs.{Receiving}
use counter_cruiser.Connection.Run.{
  Attempt, refused, made, Life, Progress, open_still, again, over, left, after_turns, tell, recover,
  left_with, connected, attempt,
}

-- How the outline of an attempt ends that made the calls.
abbrev pub turn_of : Progress → Bool → List Call → Run.Turn
turn_of open_still running calls = Run.again calls
turn_of again true calls = Run.again calls
turn_of again false calls = Run.over (ok tt) calls
turn_of (over result) running calls = Run.over result calls

-- The calls of an exception's handling, after those before it.
abbrev calls_of : Bool → Bool → List Call → List Call
calls_of caught stopped before =
    if caught
    then (if stopped
        then before ++ connection_change false ∷ []
        else before ++ connection_change false ∷ wait ∷ [])
    else before

module _ {Frame Client : Type 0} where
  -- Is `stop` called by the end of an attempt that leaves the session as it is?
  abbrev stopped_by : Bool → Life Frame Client → Bool
  stopped_by stopped y = if stopped then true else not y.session.running

  abbrev pub outline_left :
      Option (Result (Unit {0}))
      → Result (Unit {0})
      → Bool
      → Bool
      → Life Frame Client
      → List Run.Attempt
  outline_left none closing stopped stopped_waiting y = []
  outline_left (some body) closing stopped stopped_waiting y = elim (left body closing) [
    | ok u ↦ Run.closed (stopped_by stopped y) ∷ []
    | err e ↦ Run.dropped e (stopped_by stopped y) stopped_waiting ∷ []
  ]

  abbrev pub outline_next :
      (Life Frame Client → List Run.Attempt) → Progress × Life Frame Client → List Run.Attempt
  outline_next rest (open_still, y) = []
  outline_next rest (again, y) = rest y
  outline_next rest (over result, y) = []

  -- The attempt made the calls, and its outline ends in the same way.
  abbrev pub Outlined :
      Life Frame Client → List Call → Progress × Life Frame Client → Run.Turn → Type 0
  Outlined y calls r t =
      (r.1.calls ≡ y.calls ++ calls) × (t ≡ turn_of r.0 r.1.session.running calls)

  -- The outline of an attempt that has ended.
  abbrev pub HasOutline :
      List Run.Attempt → Life Frame Client → Progress × Life Frame Client → Type 0
  HasOutline os y r =
      (o : Run.Attempt) × (calls : List Call) × (os ≡ o ∷ []) × Outlined y calls r (turn o)

module _ {Frame Now Raw Request Message Client : Type 0} (encode : Frame → ℕ → Result Message)
    (receiving_at : ℤ → Receiving Frame Now Raw Request Client)
    (on_connection_change : Bool → Client → Client) where
  -- An attempt without its turns, if it has ended.
  abbrev pub outline : Attempt Frame Now Raw Request → Life Frame Client → List Run.Attempt
  outline (refused e stopped stopped_waiting) y =
      Run.refused e (stopped_by stopped y) stopped_waiting ∷ []
  outline (made ts closing stopped stopped_waiting) y =
      let (ended, c) = connected encode receiving_at on_connection_change ts y in
      outline_left ended closing stopped stopped_waiting
        (after_turns c (tell encode receiving_at on_connection_change true y))

  -- The attempts that are made.
  unfoldable pub outlines :
      List (Attempt Frame Now Raw Request) → Life Frame Client → List Run.Attempt
  outlines [] y = []
  outlines (a ∷ xs) y =
      let more =
        outline_next (outlines xs) (attempt encode receiving_at on_connection_change a y) in
      if y.session.running then outline a y ++ more else []

  recover-Outlined :
      (before : List Call) (y0 y : Life Frame Client) (e : Exception) (a b : Bool)
      → y.calls ≡ y0.calls ++ before
      → Outlined y0
          (calls_of (is_caught e) (stopped_by a y) before)
          (recover encode receiving_at on_connection_change e a b y)
          (Run.recover before e (stopped_by a y) b)
  unfolding stop
  recover-Outlined before y0 y e a b h = ground (
    arith,
    append_assoc y0.calls before (connection_change false ∷ []),
    append_assoc y0.calls before (connection_change false ∷ wait ∷ []),
    append_assoc (y0.calls ++ before) (connection_change false ∷ []) (wait ∷ []),
  )

  left_with-HasOutline :
      (ended : Option (Result (Unit {0}))) (closing : Result (Unit {0})) (a b : Bool)
      (y0 y : Life Frame Client)
      → y.calls ≡ y0.calls ++ connection_change true ∷ []
      → let r = left_with encode receiving_at on_connection_change ended closing a b y in
        r.0 ≢ open_still → HasOutline (outline_left ended closing a b y) y0 r
  unfolding turn stop
  left_with-HasOutline none closing a b y0 y h ended_now = absurd (ended_now refl)
  left_with-HasOutline (some body) (err e) a b y0 y h ended_now = (
    Run.dropped e (stopped_by a y) b,
    calls_of (is_caught e) (stopped_by a y) (connection_change true ∷ []),
    refl,
    recover-Outlined (connection_change true ∷ []) y0 y e a b h,
  )
  left_with-HasOutline (some (err e)) (ok u) a b y0 y h ended_now = (
    Run.dropped e (stopped_by a y) b,
    calls_of (is_caught e) (stopped_by a y) (connection_change true ∷ []),
    refl,
    recover-Outlined (connection_change true ∷ []) y0 y e a b h,
  )
  left_with-HasOutline (some (ok v)) (ok u) a b y0 y h ended_now =
      (Run.closed (stopped_by a y), connection_change true ∷ [], refl, ground (arith, h))

  pub attempt-HasOutline :
      (x : Attempt Frame Now Raw Request) (y : Life Frame Client)
      → let r = attempt encode receiving_at on_connection_change x y in
        r.0 ≢ open_still → HasOutline (outline x y) y r
  unfolding attempt turn
  attempt-HasOutline (refused e a b) y ended_now = (
    Run.refused e (stopped_by a y) b,
    calls_of (is_caught e) (stopped_by a y) [],
    refl,
    recover-Outlined [] y y e a b (sym (append-nil y.calls)),
  )
  attempt-HasOutline (made ts closing a b) y ended_now =
      let c = connected encode receiving_at on_connection_change ts y in
      left_with-HasOutline c.0 closing a b y
        (after_turns c.1 (tell encode receiving_at on_connection_change true y)) refl ended_now
