-- ===== src/Alerts/Log.antt =====
-- counter_cruiser/client/alerts/log.py. The file is a text; `dumps` is `json.dumps`.
use counter_cruiser.Prelude.{
  ℕ, List, String, append, str_le, sorted_by, length, ℤ, Result, ok, err, Exception,
  except_os_error,
}
use counter_cruiser.Alerts.{AlertContext}

pub record LogRecord (Time : Type 0) : Type 0 where
  pub timestamp : Time
  pub triggered_zones : List String
  pub detection_count : ℕ
  pub frame_id : ℤ

-- How opening and writing end: the line is appended, or an exception is raised after a part of it.
pub data Appended : Type 0 where
  appended : Appended
  cut_short : Exception → String → Appended

abbrev pub log_record :
    {Frame Float Time : Type 0} → Time → AlertContext Frame Float → LogRecord Time
log_record now context = record {
  timestamp = now;
  triggered_zones = sorted_by str_le context.triggered_zones;
  detection_count = length context.detections;
  frame_id = context.frame_id;
}

abbrev pub append_line : Appended → String → String → Result (Unit {0}) × String
append_line appended line content = (ok tt, append content line)
append_line (cut_short e part) line content = (err e, append content part)

-- `LogHandler.trigger` on the content of the file.
unfoldable pub log_trigger :
    {Frame Float Time : Type 0}
    → (LogRecord Time → String)
    → Time
    → Appended
    → AlertContext Frame Float
    → String
    → Result (Unit {0}) × String
log_trigger dumps now ends context content =
    let r = append_line ends (append (dumps (log_record now context)) "\n") content in
    (except_os_error r.0, r.1)
