-- ===== src/Link.antt =====
-- A client and the server of counter_cruiser/server/__main__.py on one connection: the frames that the
-- send loop of counter_cruiser/client/transport.py encodes, through counter_cruiser/shared/protocol.py, the
-- handler and the model. Loading a network, JSON and the codec are parameters.
pub mod RoundTrip
use counter_cruiser.Prelude.{
  ◌≡◌, refl, ap, ◌∙◌, Bool, true, false, List, [], ◌∷◌, ◌++◌, String, ℤ, Result, ok, err, ◌>>=◌,
  >>=-ok, ok_injective, Floats, Exception, value_error,
}
use counter_cruiser.Protocol.{
  AnyMessage, FrameMessage, DetectionMessage, frame, detection, Codec, encoded, encode_frame,
  decode_frame,
}
use counter_cruiser.Zone.{BoundingBox}
use counter_cruiser.Server.{Env}
use counter_cruiser.Server.Model
use counter_cruiser.Server.Model.{RawBox, select_device}
use counter_cruiser.Settings.{ServerSettings}

-- `serialize` and `deserialize` are pydantic's, to and from the texts `Raw`; `load` is the network of a model on a device; `elapsed_ms`,
-- `show` and the clock as in the handler. `cuda` and `mps` say what torch has, if it is there.
pub record Parts (F : Floats) (C : Codec) : Type 1 where
  pub Time : Type 0
  pub Raw : Type 0
  pub serialize : AnyMessage F.Float Time → Raw
  pub deserialize : Raw → Result (AnyMessage F.Float Time)
  pub load : String → String → C.Image → List (List (RawBox F.Float))
  pub has_torch : Bool
  pub cuda : Bool
  pub mps : Bool
  pub elapsed_ms : FrameMessage Time → F.Float
  pub show : Exception → String
  pub now : Time

module _ (F : Floats) (C : Codec) (P : Parts F C) where
  open F use {Float}
  open C use {Frame, Image, Bytes, imencode, imdecode, b64encode, b64decode}
  open P use {Time, Raw, serialize, deserialize, load, now}

  -- The boxes that the model of `_serve` finds in an image.
  unfoldable pub found : ServerSettings Float → Image → List (BoundingBox Float)
  found config image =
      let device = select_device P.has_torch P.cuda P.mps config.device in
      Model.detect F config.confidence_threshold (load config.model_name device image)

  -- `_serve` with the handler of its connections.
  abbrev pub serve : ServerSettings Float → Env
  serve config = record {
    Raw = Raw;
    Float = Float;
    Time = Time;
    Image = Image;
    deserialize = deserialize;
    decode = decode_frame C;
    detect = λ image. ok (found config image);
    elapsed_ms = P.elapsed_ms;
    show = P.show;
    now = now;
  }

  -- What the send loop puts on the wire for a frame.
  unfoldable pub wire : ℤ → Frame → ℤ → Result Raw
  unfolding encode_frame
  wire quality image frame_id =
      encode_frame C now image frame_id quality >>= λ msg. ok (serialize (frame msg))

  abbrev pub wire_all : ℤ → List (Frame × ℤ) → Result (List Raw)
  wire_all quality [] = ok []
  wire_all quality ((image, frame_id) ∷ frames) = do
    raw ← wire quality image frame_id
    raws ← wire_all quality frames
    ok (raw ∷ raws)
