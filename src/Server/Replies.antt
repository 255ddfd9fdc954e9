-- ===== src/Server/Replies.antt =====
-- What a client receives for each message that it sends.
use counter_cruiser.Prelude.{
  ◌≡◌, ◌≢◌, refl, ap, ◌∙◌, ◌⊎◌, inl, inr, false, none, some, List, [], ◌∷◌, ◌++◌, Exception, Result,
  ℤ, Option, ok, err, connection_closed, Result-cases,
}
use counter_cruiser.Protocol.{
  AnyMessage, FrameMessage, DetectionMessage, frame, detection, error, ping, pong, make_error,
  make_pong,
}
use counter_cruiser.Server.Handler.{
  Env, is_closed, Round, attempt, reply, answer, on_exception, handle_one, after_round,
  handle_connection,
}

module _ (E : Env) where
  open E use {Raw, Float, Time, Image, deserialize, decode, detect, show, now}

  -- The frame cannot be decoded, or inference on its image raises.
  abbrev pub FailsWith : FrameMessage Time → Exception → Type 0
  FailsWith m x =
      (decode m ≡ err x)
      ⊎ ((image : Image) × (id : ℤ) × (decode m ≡ ok (image, id)) × (detect image ≡ err x))

  -- The error of an exception, for the frame, if it is one.
  abbrev pub error_for : Option ℤ → Exception → AnyMessage Float Time
  error_for frame_id x = error (record {
    frame_id = frame_id;
    error_type = "processing_error";
    message = show x;
    timestamp = now;
  })

  -- A ping gets a pong with its time. A frame gets the boxes that the model finds in its image, or,
  -- exactly if decoding or inference raises, an error with that exception that names the frame. What cannot
  -- be read gets an error with its exception that names no frame. Any other message gets no answer.
  abbrev pub IsAnswer : Result (AnyMessage Float Time) → List (AnyMessage Float Time) → Type 0
  IsAnswer (ok (ping p)) out =
      out ≡ pong (record { ping_timestamp = p.timestamp; timestamp = now }) ∷ []
  IsAnswer (ok (frame m)) out =
      ((d : DetectionMessage Float Time) × (image : Image) × (out ≡ detection d ∷ [])
        × (decode m ≡ ok (image, d.frame_id))
        × (detect image ≡ ok d.boxes))
      ⊎ ((x : Exception) × (out ≡ error_for (some m.frame_id) x ∷ []) × FailsWith m x)
  IsAnswer (ok (detection d)) out = out ≡ []
  IsAnswer (ok (error e)) out = out ≡ []
  IsAnswer (ok (pong p)) out = out ≡ []
  IsAnswer (err x) out = out ≡ error_for none x ∷ []

  -- What each message gets, in order.
  abbrev pub Answered : List Raw → List (List (AnyMessage Float Time)) → Type 0
  Answered [] [] = Unit
  Answered [] (o ∷ os) = ⊥
  Answered (raw ∷ raws) [] = ⊥
  Answered (raw ∷ raws) (o ∷ os) = IsAnswer (deserialize raw) o × Answered raws os

  abbrev pub joined : List (List (AnyMessage Float Time)) → List (AnyMessage Float Time)
  joined [] = []
  joined (o ∷ os) = o ++ joined os

  module _ (read_open : (raw : Raw) → deserialize raw ≢ err connection_closed)
      (decode_open : (m : FrameMessage Time) → decode m ≢ err connection_closed)
      (detect_open : (image : Image) → detect image ≢ err connection_closed) where
    reads : (e : Exception) → e ≢ connection_closed → is_closed e ≡ false
    reads Exception.connection_closed h = absurd (h refl)
    reads _ h = refl

    abbrev GoesOn : Result (AnyMessage Float Time) → Round E → Type 0
    GoesOn msg r = (r.ended ≡ ok tt) × (r.sends ≡ []) × IsAnswer msg r.out

    attempt-GoesOn :
        (msg : Result (AnyMessage Float Time))
        → msg ≢ err connection_closed
        → GoesOn msg (attempt E msg (reply E msg) [])
    unfolding answer on_exception make_error make_pong
    attempt-GoesOn (err x) h = rw (reads x (λ e. h (ap err e))) (refl, refl, refl)
    attempt-GoesOn (ok (detection d)) h = (refl, refl, refl)
    attempt-GoesOn (ok (error e)) h = (refl, refl, refl)
    attempt-GoesOn (ok (pong p)) h = (refl, refl, refl)
    attempt-GoesOn (ok (ping p)) h = (refl, refl, refl)
    attempt-GoesOn (ok (frame m)) h = elim (Result-cases (decode m)) [
      | inr (x, bad) ↦
          rw (bad, reads x (λ e. decode_open m (bad ∙ ap err e)))
            (refl, refl, inr (x, refl, inl refl))
      | inl ((image, id), good) ↦ elim (Result-cases (detect image)) [
        | inr (x, bad) ↦
            rw (good, bad, reads x (λ e. detect_open image (bad ∙ ap err e)))
              (refl, refl, inr (x, refl, inr (image, id, refl, bad)))
        | inl (boxes, found) ↦ rw (good, found) (refl, refl, inl (_, image, refl, refl, found))
      ]
    ]

    handle_one-GoesOn : (raw : Raw) → GoesOn (deserialize raw) (handle_one E raw [])
    unfolding handle_one
    handle_one-GoesOn raw = attempt-GoesOn (deserialize raw) (read_open raw)

    after_round-ok :
        (r : Round E) (raws : List Raw) {more : List (AnyMessage Float Time)}
        → r.ended ≡ ok tt
        → r.sends ≡ []
        → handle_connection E raws [] ≡ (ok tt, more)
        → after_round E r.ended r.out (handle_connection E raws r.sends) ≡ (ok tt, r.out ++ more)
    after_round-ok r raws {more} ended sends same =
        ap (λ x. after_round E x r.out (handle_connection E raws r.sends)) ended
        ∙ ap (λ x. after_round E (ok tt) r.out (handle_connection E raws x)) sends
        ∙ ap (after_round E (ok tt) r.out) same

    -- While every `send` returns and nothing else raises `ConnectionClosed`, the handler goes through
    -- all messages, whatever fails in them, returns, and has sent for each, in order: for a ping a pong with
    -- its time; for a frame the boxes that the model finds in its image, or, exactly if decoding or inference
    -- raises, an error that has the exception's text and names the frame; for what cannot be read an error that
    -- has the exception's text and names no frame; and nothing for any other message.
    pub every_message-Answered :
        (raws : List Raw)
        → (outs : List (List (AnyMessage Float Time))) × (handle_connection E raws []
            ≡ (ok tt, joined outs))
          × Answered raws outs
    unfolding handle_connection
    every_message-Answered [] = ([], refl, tt)
    every_message-Answered (raw ∷ raws) =
        let (outs, same, answered) = every_message-Answered raws in
        let r = handle_one E raw [] in
        let (ended, sends, answer) = handle_one-GoesOn raw in
        (r.out ∷ outs, after_round-ok r raws ended sends same, (answer, answered))
