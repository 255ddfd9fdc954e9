-- ===== src/Link/RoundTrip.antt =====
-- From a captured frame to the boxes of its own image.
use counter_cruiser.Prelude.{
  ◌≡◌, refl, sym, ap, ◌∙◌, true, false, List, [], ◌∷◌, ℤ, ok, ◌>>=◌, >>=-ok, ok_injective, Floats,
}
use counter_cruiser.Protocol.{
  AnyMessage, FrameMessage, frame, detection, Codec, Encoding, cv2_error, encoded, pack,
  encode_frame, decode_frame,
}
use counter_cruiser.Server.{
  with_image, attempt, reply, handle_one, handle_connection, after_round, answer,
}
use counter_cruiser.Settings.{ServerSettings}
use counter_cruiser.Link.{Parts, found, serve, wire, wire_all}

module _ (F : Floats) (C : Codec) (P : Parts F C) (config : ServerSettings F.Float) where
  open F use {Float}
  open C use {Frame, Image, Bytes, imencode, imdecode, b64encode, b64decode}
  open P use {Time, Raw, serialize, deserialize, now}

  -- The answer to a frame: its own id, and the boxes found in the image of its own bytes.
  pub record Found (quality : ℤ) (image : Frame) (frame_id : ℤ) (out : AnyMessage Float Time)
      : Type 0 where
    pub bytes : Bytes
    pub is_encoded : imencode image quality ≡ encoded true bytes
    pub elapsed : Float
    pub same :
        out
        ≡ detection (record {
          frame_id = frame_id;
          boxes = found F C P config (imdecode bytes);
          processing_time_ms = elapsed;
          timestamp = now;
        })

  -- One answer for each frame, in order.
  abbrev pub AllFound : ℤ → List (Frame × ℤ) → List (AnyMessage Float Time) → Type 0
  AllFound quality [] [] = Unit
  AllFound quality [] (o ∷ os) = ⊥
  AllFound quality (f ∷ fs) [] = ⊥
  AllFound quality (f ∷ fs) (o ∷ os) = Found quality f.0 f.1 o × AllFound quality fs os

  packed :
      (image : Frame) (frame_id : ℤ) (e : Encoding Bytes) (msg : FrameMessage Time)
      → pack C now image frame_id e ≡ ok msg
      → (bytes : Bytes) × (e ≡ encoded true bytes)
        × (msg.image_data ≡ b64encode bytes)
        × (msg.frame_id ≡ frame_id)
  packed image frame_id cv2_error msg h = cc
  packed image frame_id (encoded false bytes) msg h = cc
  packed image frame_id (encoded true bytes) msg h =
      let same = ok_injective h in
      (bytes, refl, ap (λ m. m.image_data) (sym same), ap (λ m. m.frame_id) (sym same))

  module _ (json : (m : AnyMessage Float Time) → deserialize (serialize m) ≡ ok m)
      (base64 : (bytes : Bytes) → b64decode (b64encode bytes) ≡ ok bytes) where
    wire-Found :
        (quality : ℤ) (image : Frame) (frame_id : ℤ) (raw : Raw)
        → wire F C P quality image frame_id ≡ ok raw
        → (out : AnyMessage Float Time) × (handle_one (serve F C P config) raw []
            ≡ record { out = out ∷ []; sends = []; ended = ok tt })
          × Found quality image frame_id out
    unfolding wire encode_frame handle_one answer decode_frame
    wire-Found quality image frame_id raw h =
        let (msg, made, written) = >>=-ok (encode_frame C now image frame_id quality) _ raw h in
        let (bytes, e, data_of, id_of) = packed image frame_id (imencode image quality) msg made in
        let decoded : decode_frame C msg ≡ ok (imdecode bytes, frame_id) =
          ap (λ d. b64decode d >>= λ buf. ok (imdecode buf, msg.frame_id)) data_of
          ∙ ap (λ r. r >>= λ buf. ok (imdecode buf, msg.frame_id)) (base64 bytes)
          ∙ ap (λ id. ok (imdecode bytes, id)) id_of in
        let read : deserialize raw ≡ ok (frame msg) =
          ap deserialize (sym (ok_injective written)) ∙ json (frame msg) in
        let out : AnyMessage Float Time = detection (record {
          frame_id = frame_id;
          boxes = found F C P config (imdecode bytes);
          processing_time_ms = P.elapsed_ms msg;
          timestamp = now;
        }) in
        (
          out,
          ap (λ m. attempt (serve F C P config) m (reply (serve F C P config) m) []) read
              ∙ ap
                  (λ d.
                    attempt (serve F C P config) (ok (frame msg))
                      (with_image (serve F C P config) (P.elapsed_ms msg) d) [])
                  decoded,
          record { bytes = bytes; is_encoded = e; elapsed = P.elapsed_ms msg; same = refl },
        )

    -- Frames that the client encodes and sends over a connection whose sends return are answered one
    -- for one and in order: each by a detection with its own id and exactly the boxes that the model of
    -- the server's settings finds in the image of the frame's own encoded bytes.
    pub round_trip :
        (quality : ℤ) (frames : List (Frame × ℤ)) (raws : List Raw)
        → wire_all F C P quality frames ≡ ok raws
        → (outs : List (AnyMessage Float Time)) × (handle_connection (serve F C P config) raws []
            ≡ (ok tt, outs))
          × AllFound quality frames outs
    unfolding handle_connection
    round_trip quality [] raws h =
        ([], ap (λ r. handle_connection (serve F C P config) r []) (sym (ok_injective h)), tt)
    round_trip quality ((image, frame_id) ∷ frames) raws h =
        let E = serve F C P config in
        let (raw, one, h1) = >>=-ok (wire F C P quality image frame_id) _ raws h in
        let (more, all, h2) = >>=-ok (wire_all F C P quality frames) _ raws h1 in
        let (out, handled, found_one) = wire-Found quality image frame_id raw one in
        let (outs, rest, found_all) = round_trip quality frames more all in
        (
          out ∷ outs,
          ap (λ r. handle_connection E r []) (sym (ok_injective h2))
              ∙ ap (λ r. after_round E r.ended r.out (handle_connection E more r.sends)) handled
              ∙ ap (after_round E (ok tt) (out ∷ [])) rest,
          (found_one, found_all),
        )
