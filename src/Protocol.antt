-- ===== src/Protocol.antt =====
-- counter_cruiser/shared/protocol.py: the messages and the frame codec. Pydantic's JSON, `cv2`,
-- base64 and the clock are parameters; a message is built at the time `now`.
use counter_cruiser.Prelude.{
  Bool, true, false, Option, List, String, ℤ, Result, ok, err, value_error, ◌>>=◌, ◌≡◌, refl,
  if◌then◌else◌,
}
use counter_cruiser.Zone.{BoundingBox}

pub record FrameMessage (Time : Type 0) : Type 0 where
  pub frame_id : ℤ
  pub image_data : String
  pub width : ℤ
  pub height : ℤ
  pub timestamp : Time

pub record DetectionMessage (Float Time : Type 0) : Type 0 where
  pub frame_id : ℤ
  pub boxes : List (BoundingBox Float)
  pub processing_time_ms : Float
  pub timestamp : Time

pub record ErrorMessage (Time : Type 0) : Type 0 where
  pub error_type : String
  pub message : String
  pub frame_id : Option ℤ
  pub timestamp : Time

pub record PingMessage (Time : Type 0) : Type 0 where
  pub timestamp : Time

pub record PongMessage (Time : Type 0) : Type 0 where
  pub ping_timestamp : Time
  pub timestamp : Time

pub data AnyMessage (Float Time : Type 0) : Type 0 where
  frame : FrameMessage Time → AnyMessage Float Time
  detection : DetectionMessage Float Time → AnyMessage Float Time
  error : ErrorMessage Time → AnyMessage Float Time
  ping : PingMessage Time → AnyMessage Float Time
  pong : PongMessage Time → AnyMessage Float Time

module _ {Time : Type 0} (now : Time) where
  unfoldable pub make_error : String → String → Option ℤ → ErrorMessage Time
  make_error error_type message frame_id = record {
    error_type = error_type;
    message = message;
    frame_id = frame_id;
    timestamp = now;
  }

  unfoldable pub make_pong : PingMessage Time → PongMessage Time
  make_pong p = record { ping_timestamp = p.timestamp; timestamp = now }

-- `cv2.imencode` raises `cv2.error`, or returns a flag and the bytes; `imdecode` gives None for bytes
-- that are no image, as any value of `Image`.
pub data Encoding (Bytes : Type 0) : Type 0 where
  cv2_error : Encoding Bytes
  encoded : Bool → Bytes → Encoding Bytes

pub record Codec : Type 1 where
  pub Frame : Type 0
  pub Image : Type 0
  pub Bytes : Type 0
  pub imencode : Frame → ℤ → Encoding Bytes
  pub imdecode : Bytes → Image
  pub b64encode : Bytes → String
  pub b64decode : String → Result Bytes
  pub height : Frame → ℤ
  pub width : Frame → ℤ

module _ (C : Codec) {Time : Type 0} where
  open C use {Frame, Image, Bytes, imencode, imdecode, b64encode, b64decode}

  abbrev pub pack : Time → Frame → ℤ → Encoding Bytes → Result (FrameMessage Time)
  pack now image frame_id cv2_error = err value_error
  pack now image frame_id (encoded good buf) =
      if good
      then ok (record {
        frame_id = frame_id;
        image_data = b64encode buf;
        width = C.width image;
        height = C.height image;
        timestamp = now;
      })
      else err value_error

  unfoldable pub encode_frame : Time → Frame → ℤ → ℤ → Result (FrameMessage Time)
  encode_frame now image frame_id quality = pack now image frame_id (imencode image quality)

  unfoldable pub decode_frame : FrameMessage Time → Result (Image × ℤ)
  decode_frame msg = do buf ← b64decode msg.image_data; ok ((imdecode buf, msg.frame_id))

  -- An encoded frame is decoded to the image of its bytes under its own id, if base64 decodes what
  -- it encodes; and an encoder that fails, by an exception or by its flag, is a `ValueError`.
  pub decode-encode :
      ((bytes : Bytes) → b64decode (b64encode bytes) ≡ ok bytes)
      → (now : Time) (image : Frame) (frame_id quality : ℤ)
      → (encode_frame now image frame_id quality >>= decode_frame) ≡ elim (imencode image quality) [
        | cv2_error ↦ err value_error
        | encoded good bytes ↦ if good then ok (imdecode bytes, frame_id) else err value_error
      ]
  unfolding encode_frame decode_frame
  decode-encode base64 now image frame_id quality = go (imencode image quality)
    where
      go :
          (e : Encoding Bytes)
          → (pack now image frame_id e >>= decode_frame) ≡ elim e [
            | cv2_error ↦ err value_error
            | encoded good bytes ↦ if good then ok (imdecode bytes, frame_id) else err value_error
          ]
      go cv2_error = refl
      go (encoded true bytes) = rw (base64 bytes)
      go (encoded false bytes) = refl
