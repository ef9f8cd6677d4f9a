-- ===== src/Tests/Start.antt =====
-- The start of the program at a concrete configuration.
use cpa_monitor.Base.{
  [], atoi, char_mem, contains_any_char, count_char, cut_last, digit, digits_value,
  equal_fold_ascii, false, fold_rune, if◌then◌else◌, inr, is_blank, is_control, is_empty, is_space,
  lower_ascii, none, onto_head, parse_uint, refl, some, split, starts_with, str, text_eq, text_mem,
  trim_left, trim_space, trim_suffix, true, ℕ, ◌∷◌, ◌≡◌,
}
use cpa_monitor.Config.{Settings, default_settings, health_report_channel, uses_channel}
use cpa_monitor.Config.Url
use cpa_monitor.Config.Check
use cpa_monitor.Config.Url.{Url, Nets}
use cpa_monitor.State.Persist.{missing}
use cpa_monitor.App.{Outside}
use cpa_monitor.Mailer
use cpa_monitor.Cliproxy.Client
use cpa_monitor.App.Build.{Runtime, build_runtime}
use cpa_monitor.App.Built.{IsFor, build_runtime-validate}
use cpa_monitor.Tests.{whole, blank_codec}

abbrev local_url : Url
local_url = record {
  scheme = str "http";
  host = str "127.0.0.1:8317";
  hostname = str "127.0.0.1";
  port = str "8317";
  has_user = false;
  raw_query = [];
  force_query = false;
  fragment = [];
}

-- Every URL is the local one, no text is an IP address but that of the URL, and every text is a mailbox.
abbrev small_nets : Nets
small_nets = record {
  parse_url = λ t. some local_url;
  parse_ip = λ t. if text_eq t (str "127.0.0.1") then some true else none;
  parse_address = λ t. some t;
}

abbrev desk_outside : Outside ℕ
desk_outside = record {
  nets = small_nets;
  codec = blank_codec;
  state_reading = λ path. missing;
  log_opens = λ o. true;
  hostname = some (str "host");
  alert_sender = λ x b w. (none, w);
}

abbrev desk_settings : Settings ℕ
desk_settings =
    let d = default_settings 80 in
    record d {
      cliproxy = record d.cliproxy { management_key = str "key" };
      smtp = record d.smtp { host = str "mail"; from = str "a@b"; to = str "c@d" ∷ [] };
    }

desk_accepted : Check.validate whole small_nets desk_settings ≡ none
unfolding default_settings health_report_channel uses_channel Check.validate Check.first_of
    Check.bad_percent Check.valid_channel Check.valid_language Check.all_mailboxes
    Check.checked_port Check.url_port Check.service_port Check.smtp_error Check.threshold_error
    Check.base_url_error Check.service_error Check.alerts_error Check.channel_error
    Check.known_level Check.file_error Check.logging_error Url.is_http Url.is_https
    Url.ends_with_char Url.authority_error Url.in_port_range Url.is_port Url.port_error
    Url.url_error Url.accepted_url Url.parse_base_url Url.is_loopback_host Url.has_space_or_control
    Url.valid_smtp_host Url.is_label Url.is_label_char Url.all_label_chars Url.all_labels split
    onto_head Url.has_domain Url.valid_mailbox str text_eq trim_space trim_left is_space is_blank
    fold_rune lower_ascii equal_fold_ascii trim_suffix starts_with count_char atoi parse_uint
    digits_value digit is_control contains_any_char char_mem cut_last text_mem
desk_accepted = refl

key_accepted : Client.valid_header_value (str "key") ≡ true
unfolding Client.valid_header_value str
key_accepted = refl

no_controls :
    (Mailer.contains_credential_control desk_settings.smtp.username ≡ false)
    × (Mailer.contains_credential_control desk_settings.smtp.password ≡ false)
unfolding Mailer.contains_credential_control default_settings
no_controls = (refl, refl)

host_named : is_empty (str "host") ≡ false
unfolding str
host_named = refl

build_runtime-validate_example :
    (r : Runtime ℕ ℕ) × (build_runtime whole desk_outside desk_settings ≡ inr r)
    × IsFor desk_outside desk_settings r
build_runtime-validate_example =
    build_runtime-validate whole desk_outside desk_settings {u = local_url} {host = str "host"}
      desk_accepted refl refl host_named key_accepted refl refl no_controls.0 no_controls.1
