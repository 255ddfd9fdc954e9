-- ===== src/Alerts.antt =====
-- counter_cruiser/client/alerts: the context of an alert and the handler protocol (context.py).
-- A handler acts on a world `W` (files, pins, the network), and a call of it returns or raises.
pub mod Manager
pub mod Notifications
pub mod Log
pub mod Texts
use counter_cruiser.Prelude.{Option, List, String, ℤ}
use counter_cruiser.Zone.{Zone, BoundingBox}

pub record AlertContext (Frame Float : Type 0) : Type 0 where
  pub frame : Option Frame
  pub detections : List (BoundingBox Float)
  pub zones : List Zone
  pub triggered_zones : List String
  pub frame_id : ℤ
