-- ===== src/Alerts/Texts.antt =====
-- What the handlers write and send about a set of zones.
use counter_cruiser.Prelude.{
  ◌≡◌, List, Permᴰ, String, str_le, str_le_total, str_le_trans, str_le_antisym, sorted_by,
  sorted_by_permuted,
}
use counter_cruiser.Alerts.{AlertContext}
use counter_cruiser.Alerts.Log.{LogRecord, Appended, log_trigger}
use counter_cruiser.Alerts.Notifications.{Request, Posted, build_message, notification_trigger}
use counter_cruiser.Settings.{NotificationConfig}

pub sorted_zones_permuted :
    {xs ys : List String} → Permᴰ xs ys → sorted_by str_le xs ≡ sorted_by str_le ys
sorted_zones_permuted p = sorted_by_permuted str_le str_le_total str_le_trans str_le_antisym p

-- Two alerts that differ only in the order in which their sets of zones are listed send the same
-- requests and append the same text to the log, with the same exceptions.
pub texts_permuted :
    {Frame Float Time : Type 0} (context : AlertContext Frame Float) {xs ys : List String}
    → Permᴰ xs ys
    → let one = record context { triggered_zones = xs } in
      let other = record context { triggered_zones = ys } in
      ((config : NotificationConfig) (posted : Posted) (sent : List Request)
        → notification_trigger config posted one sent
          ≡ notification_trigger config posted other sent)
      × ((dumps : LogRecord Time → String) (now : Time) (ends : Appended) (content : String)
          → log_trigger dumps now ends one content ≡ log_trigger dumps now ends other content)
unfolding notification_trigger log_trigger build_message
texts_permuted context p = (
  λ config posted sent. rw (sorted_zones_permuted p),
  λ dumps now ends content. rw (sorted_zones_permuted p),
)
