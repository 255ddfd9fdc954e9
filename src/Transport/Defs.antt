-- ===== src/Transport/Defs.antt =====
-- The state of a session and its steps. Times are ticks of the monotonic clock, frames any type.
use counter_cruiser.Prelude.{
  ℕ, ◌+◌, ◌-◌, ◌%◌, ◌==◌, Bool, true, false, Option, none, some, List, [], ◌∷◌, length, ltb, Result,
  ok, err, if◌then◌else◌,
}

-- Python dictionaries keyed by frame ids, in the order of insertion.
abbrev pub Dict {ℓ} : Type ℓ → Type ℓ
Dict V = List (ℕ × V)

module _ {ℓ} {V : Type ℓ} where
  abbrev pub get : ℕ → Dict V → Option V
  get k [] = none
  get k ((j, v) ∷ d) = if j == k then some v else get k d

  abbrev pub put : ℕ → V → Dict V → Dict V
  put k v [] = (k, v) ∷ []
  put k v ((j, w) ∷ d) = if j == k then (j, v) ∷ d else (j, w) ∷ put k v d

  abbrev pub delete : ℕ → Dict V → Dict V
  delete k [] = []
  delete k ((j, w) ∷ d) = if j == k then d else (j, w) ∷ delete k d

  -- `del d[next(iter(d))]`
  abbrev pub delete_oldest : Dict V → Dict V
  delete_oldest [] = []
  delete_oldest ((j, w) ∷ d) = delete j ((j, w) ∷ d)

-- The validator of the settings keeps `frame_skip` at 1 or more.
pub record Session (Frame : Type 0) : Type 0 where
  pub running : Bool
  pub pending : Dict ℕ
  pub frame_id : ℕ
  pub frame_buffer : Dict Frame
  pub frame_buffer_capacity : ℕ
  pub frame_skip : ℕ

unfoldable pub init : {Frame : Type 0} → ℕ → ℕ → Session Frame
init frame_buffer_capacity frame_skip = record {
  running = true;
  pending = [];
  frame_id = 0;
  frame_buffer = [];
  frame_buffer_capacity = frame_buffer_capacity;
  frame_skip = frame_skip;
}

abbrev pub sent {ℓ} : {Message : Type ℓ} → Result Message → Result (Option Message)
sent (err e) = err e
sent (ok message) = ok (some message)

module _ {Frame : Type 0} where
  -- The frame is retained under the next id, and the oldest is evicted over the capacity.
  unfoldable pub retain : Frame → Session Frame → Session Frame
  retain frame s =
      let frame_id = s.frame_id + 1 in
      let buffer = put frame_id frame s.frame_buffer in
      record s {
        frame_id = frame_id;
        frame_buffer =
            if ltb s.frame_buffer_capacity (length buffer) then delete_oldest buffer else buffer;
      }

  -- The frame is noted as sent at `now`, unless encoding it raised.
  abbrev pub note_sent {ℓ} : {Message : Type ℓ} → Result Message → ℕ → Session Frame → Session Frame
  note_sent (err e) now s = s
  note_sent (ok message) now s = record s { pending = put s.frame_id now s.pending }

  -- One round of the send loop up to its `await`: what is sent, or the exception of the encoder; the
  -- loop's variable `count`; and the session. `encode` is `encode_frame` with `serialize`.
  unfoldable pub send_round :
      {Message : Type 0}
      → (Frame → ℕ → Result Message)
      → Option Frame
      → ℕ
      → ℕ
      → Session Frame
      → Result (Option Message) × ℕ × Session Frame
  unfolding retain
  send_round encode none now count s = (ok none, count, s)
  send_round encode (some frame) now count s =
      if (count + 1) % s.frame_skip == 0
      then (let s' = retain frame s in
          let message = encode frame s'.frame_id in
          (sent message, count + 1, note_sent message now s'))
      else (ok none, count + 1, s)

  -- A detection in the receive loop: its latency in ticks, and the session without the pending entry.
  -- The id is the server's; one that is no natural number is in no dictionary, like any unknown one.
  unfoldable pub receive : ℕ → ℕ → Session Frame → ℕ × Session Frame
  receive frame_id now s = (
    elim (get frame_id s.pending) [ none ↦ 0 | some sent_at ↦ now - sent_at ],
    record s { pending = delete frame_id s.pending },
  )

  unfoldable pub get_frame : ℕ → Session Frame → Option Frame
  get_frame frame_id s = get frame_id s.frame_buffer

  -- The start of `_run_connection`.
  unfoldable pub connect : Session Frame → Session Frame
  connect s = record s { pending = [] }

  unfoldable pub stop : Session Frame → Session Frame
  stop s = record s { running = false }
