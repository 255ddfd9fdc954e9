-- ===== src/Tests/Linked.antt =====
-- A client's frames through the server.
use counter_cruiser.Prelude.{◌≡◌, refl, true, false, List, [], ◌∷◌, String, ℤ, pos, ok}
use counter_cruiser.Protocol.{AnyMessage, Codec, encoded, encode_frame, frame}
use counter_cruiser.Server.{handle_connection}
use counter_cruiser.Server.Model.{RawBox}
use counter_cruiser.Settings.{ServerSettings}
use counter_cruiser.Link.{Parts, serve, wire, wire_all}
use counter_cruiser.Link.RoundTrip.{AllFound, round_trip}
use counter_cruiser.Tests.Fixtures.{floats}

-- A frame is a text, and so are its bytes and the image of them.
abbrev codec : Codec
codec = record {
  Frame = String;
  Image = String;
  Bytes = String;
  imencode = λ image quality. encoded true image;
  imdecode = λ bytes. bytes;
  b64encode = λ bytes. bytes;
  b64decode = λ text. ok text;
  height = λ image. pos 480;
  width = λ image. pos 640;
}

abbrev seen : ℤ → RawBox ℤ
seen conf = record { cls = pos 16; conf = conf; x1 = pos 1; y1 = pos 2; x2 = pos 3; y2 = pos 4 }

abbrev parts : Parts floats codec
parts = record {
  Time = ℤ;
  Raw = AnyMessage ℤ ℤ;
  serialize = λ m. m;
  deserialize = λ m. ok m;
  load = λ model device image. (seen (pos 9) ∷ seen (pos 1) ∷ []) ∷ [];
  has_torch = false;
  cuda = false;
  mps = false;
  elapsed_ms = λ m. pos 12;
  show = λ e. "failed";
  now = pos 8;
}

abbrev config : ServerSettings ℤ
config = record {
  host = "0.0.0.0";
  port = pos 8765;
  model_name = "yolov8n.pt";
  device = "auto";
  confidence_threshold = pos 5;
}

abbrev frames : List (String × ℤ)
frames = ("a", pos 1) ∷ ("b", pos 2) ∷ []

abbrev sent : ℤ → String → AnyMessage ℤ ℤ
sent id image = frame (record {
  frame_id = id;
  image_data = image;
  width = pos 640;
  height = pos 480;
  timestamp = pos 8;
})

frames-sent :
    wire_all floats codec parts (pos 85) frames ≡ ok (sent (pos 1) "a" ∷ sent (pos 2) "b" ∷ [])
unfolding wire encode_frame
frames-sent = refl

round_trip_example :
    (outs : List (AnyMessage ℤ ℤ)) × (handle_connection
        (serve floats codec parts config)
        (sent (pos 1) "a" ∷ sent (pos 2) "b" ∷ [])
        []
      ≡ (ok tt, outs))
    × AllFound floats codec parts config (pos 85) frames outs
round_trip_example =
    round_trip floats codec parts config (λ m. refl) (λ bytes. refl) (pos 85) frames
      (sent (pos 1) "a" ∷ sent (pos 2) "b" ∷ []) frames-sent
