-- ===== src/Server/Handler.antt =====
-- counter_cruiser/server/handler.py: `handle_connection`. Decoding, inference and JSON are
-- parameters that may raise; each `send` ends as the next item of a list says.
use counter_cruiser.Prelude.{
  Bool, true, false, Option, none, some, List, [], ◌∷◌, ◌++◌, String, ℤ, Exception, Result, ok, err,
  if◌then◌else◌,
}
use counter_cruiser.Zone.{BoundingBox}
use counter_cruiser.Protocol.{
  AnyMessage, FrameMessage, frame, detection, error, ping, pong, make_error, make_pong,
}

-- `decode` is `decode_frame`, `detect` the model; `show` is `str` of an exception, `elapsed_ms` the time
-- measured for a frame.
pub record Env : Type 1 where
  pub Raw : Type 0
  pub Float : Type 0
  pub Time : Type 0
  pub Image : Type 0
  pub deserialize : Raw → Result (AnyMessage Float Time)
  pub decode : FrameMessage Time → Result (Image × ℤ)
  pub detect : Image → Result (List (BoundingBox Float))
  pub elapsed_ms : FrameMessage Time → Float
  pub show : Exception → String
  pub now : Time

-- How a `send` ends.
abbrev pub Send : Type 0
Send = Result (Unit {0})

abbrev pub is_closed : Exception → Bool
is_closed Exception.connection_closed = true
is_closed _ = false

module _ (E : Env) where
  open E use {Raw, Float, Time, Image, deserialize, decode, detect, elapsed_ms, show, now}

  -- The body of the `try` before it sends: the message to send, if there is one.
  abbrev pub with_boxes :
      ℤ → Float → Result (List (BoundingBox Float)) → Result (Option (AnyMessage Float Time))
  with_boxes frame_id elapsed (err e) = err e
  with_boxes frame_id elapsed (ok boxes) = ok (
      some (
        detection (record {
          frame_id = frame_id;
          boxes = boxes;
          processing_time_ms = elapsed;
          timestamp = now;
        })))

  abbrev pub with_image : Float → Result (Image × ℤ) → Result (Option (AnyMessage Float Time))
  with_image elapsed (err e) = err e
  with_image elapsed (ok (image, frame_id)) = with_boxes frame_id elapsed (detect image)

  unfoldable pub answer : AnyMessage Float Time → Result (Option (AnyMessage Float Time))
  answer (ping m) = ok (some (pong (make_pong now m)))
  answer (frame m) = with_image (elapsed_ms m) (decode m)
  answer (detection m) = ok none
  answer (error m) = ok none
  answer (pong m) = ok none

  -- `frame_id = msg.frame_id if isinstance(msg, FrameMessage) else None`
  abbrev pub frame_id_of : Result (AnyMessage Float Time) → Option ℤ
  frame_id_of (ok (frame m)) = some m.frame_id
  frame_id_of _ = none

  unfoldable pub error_reply : Result (AnyMessage Float Time) → Exception → AnyMessage Float Time
  error_reply msg e = error (make_error now "processing_error" (show e) (frame_id_of msg))

  abbrev pub reply : Result (AnyMessage Float Time) → Result (Option (AnyMessage Float Time))
  reply (err e) = err e
  reply (ok m) = answer m

  abbrev pub next : List Send → Send
  next [] = ok tt
  next (x ∷ xs) = x

  abbrev pub rest : List Send → List Send
  rest [] = []
  rest (x ∷ xs) = xs

  -- A round that sent `out` leaves the sends to come, and raises or not.
  pub record Round : Type 0 where
    pub out : List (AnyMessage Float Time)
    pub sends : List Send
    pub ended : Send

  -- `except Exception`: the error reply, whose own send may raise.
  unfoldable pub on_exception :
      Result (AnyMessage Float Time) → Exception → List Send → List (AnyMessage Float Time) → Round
  unfolding error_reply
  on_exception msg e sends out =
      if is_closed e
      then record { out = out; sends = sends; ended = err e }
      else record { out = out ++ error_reply msg e ∷ []; sends = rest sends; ended = next sends }

  abbrev pub after_send :
      Result (AnyMessage Float Time) → Send → List Send → List (AnyMessage Float Time) → Round
  after_send msg (ok u) sends out = record { out = out; sends = sends; ended = ok tt }
  after_send msg (err e) sends out = on_exception msg e sends out

  abbrev pub attempt :
      Result (AnyMessage Float Time) → Result (Option (AnyMessage Float Time)) → List Send → Round
  attempt msg (err e) sends = on_exception msg e sends []
  attempt msg (ok none) sends = record { out = []; sends = sends; ended = ok tt }
  attempt msg (ok (some m)) sends = after_send msg (next sends) (rest sends) (m ∷ [])

  -- One round of the loop over the socket: the messages handed to `send`, also one that raises.
  unfoldable pub handle_one : Raw → List Send → Round
  unfolding on_exception answer
  handle_one raw sends = let msg = deserialize raw in attempt msg (reply msg) sends

  abbrev pub after_round :
      Send
      → List (AnyMessage Float Time)
      → Send × List (AnyMessage Float Time)
      → Send × List (AnyMessage Float Time)
  after_round (ok u) out more = (more.0, out ++ more.1)
  after_round (err e) out more = (if is_closed e then ok tt else err e, out)

  -- The loop until the socket is closed. `ConnectionClosed` ends the handler quietly.
  unfoldable pub handle_connection : List Raw → List Send → Send × List (AnyMessage Float Time)
  handle_connection [] sends = (ok tt, [])
  handle_connection (raw ∷ raws) sends =
      let r = handle_one raw sends in
      let more = handle_connection raws r.sends in after_round r.ended r.out more
