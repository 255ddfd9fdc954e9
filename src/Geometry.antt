-- ===== src/Geometry.antt =====
-- counter_cruiser/shared/geometry.py: which zones a detection touches, and when a dog counts as
-- elevated. Floats and `cv2.pointPolygonTest` are parameters: the sign that the test returns for an
-- integer polygon (converted to float32) and a point.
mod Defs
pub mod Laws
pub mod Floor
unfoldable pub use Defs.*
