-- ===== src/Camera.antt =====
-- counter_cruiser/client/capture.py: `OpenCVCapture`. The calls of `cv2.VideoCapture` are listed as they
-- are made, and each is answered by a parameter.
mod Defs
pub mod Held
unfoldable pub use Defs.*
