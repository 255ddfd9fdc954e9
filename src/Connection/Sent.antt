-- ===== src/Connection/Sent.antt =====
-- The k-th message that a connection sends.
use counter_cruiser.Prelude.{
  ℕ, suc, ◌+◌, ◌*◌, ◌<◌, ◌==◌, ◌≡◌, refl, ap, ◌∙◌, Bool-cases, inl, inr, some, List, [], ◌∷◌, arith,
  Result, ok,
}
use mathlib.Core.Option
use counter_cruiser.Camera.{OpenCvCapture, DeviceCall}
use counter_cruiser.Transport.{Session}
use counter_cruiser.Transport.Numbered.{numbered, at}
use counter_cruiser.Connection.Defs.{Turn, Connection, Receiving, begin, take_turns}
use counter_cruiser.Connection.Wire.{every, until_error, frames_read, encoded, begin-wire}
use counter_cruiser.Connection.Every.{at-every}

module _ {Frame Now Raw Request Message Client : Type 0} (encode : Frame → ℕ → Result Message)
    (receiving_body : Receiving Frame Now Raw Request Client) (message_of : Frame → ℕ → Message)
    (encodable : (frame : Frame) (id : ℕ) → encode frame id ≡ ok (message_of frame id)) where
  at-encoded :
      (id j n k : ℕ) (frames : List Frame)
      → n ≡ id + j
      → at j (until_error (encoded encode receiving_body (numbered n frames))) k
        ≡ Option.map (λ frame. message_of frame (id + k)) (at j frames k)
  at-encoded id j n k [] h = refl
  at-encoded id j n k (x ∷ xs) h =
      let rest = at-encoded id (suc j) (suc n) k xs (omega arith) in
      elim (Bool-cases (j == k)) [
        | inl here ↦
            let same : n ≡ id + k = ground (arith, here) in
            rw (encodable x n, here) (ap (λ i. some (message_of x i)) same)
        | inr further ↦ rw (encodable x n, further) rest
      ]

  -- Where every frame can be encoded, the k-th message of a connection, whatever the order in which its
  -- tasks go on, is the frame that the camera gave as number k * `frame_skip`, under the id k after the
  -- session's last; and there is a k-th message exactly if there is such a frame.
  pub begin-sent :
      (camera : OpenCvCapture) (calls : List DeviceCall) (s : Session Frame) (client : Client)
      (ts : List (Turn Frame Now Raw Request)) (k : ℕ)
      → 0 < s.frame_skip
      → let c : Connection Frame Message Client = begin camera calls s client in
        at 1 (take_turns encode receiving_body ts c).wire k
        ≡ Option.map
            (λ frame. message_of frame (s.frame_id + k))
            (at 1 (frames_read encode receiving_body ts c) (k * s.frame_skip))
  begin-sent camera calls s client ts k h =
      let c : Connection Frame Message Client = begin camera calls s client in
      let frames = frames_read encode receiving_body ts c in
      ap (λ ms. at 1 ms k) (begin-wire encode receiving_body camera calls s client ts)
      ∙ at-encoded s.frame_id 1 (suc s.frame_id) k (every s.frame_skip 0 frames) (omega arith)
      ∙ ap (Option.map (λ frame. message_of frame (s.frame_id + k)))
          (at-every s.frame_skip k frames h)
