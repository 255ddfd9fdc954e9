-- ===== src/Alerts/Notifications.antt =====
-- counter_cruiser/client/alerts/notifications.py. `requests.post` is a parameter: what each call of it ends
-- with. Logging is left out, and with it the status of a response, which is only logged.
use counter_cruiser.Prelude.{
  Option, none, some, List, [], ◌∷◌, String, append, str_eq, str_le, sorted_by, Result, ok, err,
  Exception, if◌then◌else◌,
}
use counter_cruiser.Alerts.{AlertContext}
use counter_cruiser.Settings.{NotificationConfig, Provider, ntfy, pushover}

-- A request: the text of the body, or the fields of the JSON.
pub data Request : Type 0 where
  ntfy_request : String → String → Request
  pushover_request : String → String → String → Request

-- How `requests.post` ends: with a response, a `RequestException`, or another exception.
pub data Posted : Type 0 where
  responded request_exception : Posted
  failed : Exception → Posted

pub data NotificationProvider : Type 0 where
  ntfy_provider : String → NotificationProvider
  pushover_provider : String → String → NotificationProvider

-- The `try` around the request.
abbrev pub delivered : Posted → Result (Unit {0})
delivered responded = ok tt
delivered request_exception = ok tt
delivered (failed e) = err e

abbrev pub request : NotificationProvider → String → Request
request (ntfy_provider topic) message = ntfy_request (append "https://ntfy.sh/" topic) message
request (pushover_provider user_key api_token) message = pushover_request api_token user_key message

unfoldable pub send :
    NotificationProvider → Posted → String → List Request → Result (Unit {0}) × List Request
send provider posted message sent = (delivered posted, request provider message ∷ sent)

-- A value that counts as true: a text that is given and not empty.
abbrev pub truthy : Option String → Option String
truthy none = none
truthy (some text) = if str_eq text "" then none else some text

abbrev pub ntfy_of : Option String → Option NotificationProvider
ntfy_of none = none
ntfy_of (some topic) = some (ntfy_provider topic)

abbrev pub pushover_of : Option String → Option String → Option NotificationProvider
pushover_of none token = none
pushover_of (some user_key) none = none
pushover_of (some user_key) (some api_token) = some (pushover_provider user_key api_token)

abbrev pub provider_of : Option Provider → NotificationConfig → Option NotificationProvider
provider_of none config = none
provider_of (some ntfy) config = ntfy_of (truthy config.ntfy_topic)
provider_of (some pushover) config =
    pushover_of (truthy config.pushover_user_key) (truthy config.pushover_api_token)

unfoldable pub build_provider : NotificationConfig → Option NotificationProvider
build_provider config = provider_of config.provider config

-- `', '.join(zones)`
abbrev pub join : List String → String
join [] = ""
join (zone ∷ []) = zone
join (zone ∷ next ∷ zones) = append zone (append ", " (join (next ∷ zones)))

unfoldable pub build_message : List String → String
build_message triggered_zones =
    let zones = join (sorted_by str_le triggered_zones) in
    append "Dog detected in zone(s): " (if str_eq zones "" then "unknown zone" else zones)

abbrev pub notify :
    Option NotificationProvider → Posted → String → List Request → Result (Unit {0}) × List Request
notify none posted message sent = (ok tt, sent)
notify (some provider) posted message sent = send provider posted message sent

-- `NotificationHandler.trigger`, with the requests sent, the newest first.
unfoldable pub notification_trigger :
    {Frame Float : Type 0}
    → NotificationConfig
    → Posted
    → AlertContext Frame Float
    → List Request
    → Result (Unit {0}) × List Request
unfolding build_message build_provider send
notification_trigger config posted context sent =
    notify (build_provider config) posted (build_message context.triggered_zones) sent
