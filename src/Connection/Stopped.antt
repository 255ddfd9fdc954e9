-- ===== src/Connection/Stopped.antt =====
-- What follows a call of `stop`.
use counter_cruiser.Prelude.{
  ℕ, ◌≡◌, ap, Exception, true, false, Bool, Option, none, some, List, [], ◌∷◌, ◌++◌, ℤ, Result, ok,
  if◌then◌else◌, ◌⊎◌,
}
use counter_cruiser.Connection.Defs.{
  Sender, closing, sender_over, Turn, at_head, sending, Connection, Receiving, take_turns,
}
use counter_cruiser.Connection.Run.{Attempt, Life, attempt, go_on, run_loop}

-- The send loop is between two awaits or in `await ws.send`.
abbrev pub IsOpen : Sender → Type 0
IsOpen at_head = Unit
IsOpen sending = Unit
IsOpen closing = ⊥
IsOpen sender_over = ⊥

module _ {Frame Now Raw Request Message Client : Type 0} (encode : Frame → ℕ → Result Message)
    (receiving_body : Receiving Frame Now Raw Request Client) where
  open receiving_body use {body, only_pending}

  abbrev has_failed : Option Exception → Bool
  has_failed none = false
  has_failed (some e) = true

  -- A connection in which the send loop has come no further than to `await ws.close`, or a task has raised.
  abbrev Follows : Connection Frame Message Client → Type 0
  Follows c = IsOpen c.sender ⊎ ((c.sender ≡ closing) ⊎ (has_failed c.failed ≡ true))

  -- After some of the turns the send loop is in `await ws.close`.
  abbrev pub ClosesIn : List (Turn Frame Now Raw Request) → Connection Frame Message Client → Type 0
  ClosesIn ts c =
      (before : List (Turn Frame Now Raw Request)) × (after : List (Turn Frame Now Raw Request))
      × (before ++ after ≡ ts)
      × ((take_turns encode receiving_body before c).sender ≡ closing)

module _ {Frame Now Raw Request Message Client : Type 0} (encode : Frame → ℕ → Result Message)
    (receiving_at : ℤ → Receiving Frame Now Raw Request Client)
    (on_connection_change : Bool → Client → Client) where
  -- The loop is left at once.
  pub stopped-run_loop :
      (xs : List (Attempt Frame Now Raw Request)) (y : Life Frame Client)
      → y.session.running ≡ false
      → run_loop encode receiving_at on_connection_change xs y ≡ (some (ok tt), y)
  unfolding run_loop
  stopped-run_loop [] y off = ap (λ b. (if b then none else some (ok tt), y)) off
  stopped-run_loop (x ∷ xs) y off =
      ap
        (λ b.
          if b
          then go_on (run_loop encode receiving_at on_connection_change xs)
              (attempt encode receiving_at on_connection_change x y)
          else (some (ok tt), y))
        off
