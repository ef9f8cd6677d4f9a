-- ===== src/Dingtalk.antt =====
-- The DingTalk client: `New` of internal/dingtalk/client.go.
pub mod Markdown
pub mod Labels
pub mod Events
pub mod Alert
pub mod Usage
pub mod Quota
pub mod Health
pub mod Send
pub mod Escaped
pub mod Bounds
pub mod Reports
pub mod Cooling
pub mod Details
use cpa_monitor.Base.{
  Bool, List, Text, [], contains_any_char, if◌then◌else◌, inl, inr, is_blank, is_empty, leb, ltb,
  not, pos_part, str, text_eq, ℕ, ℤ, ◌&&◌, ◌||◌, ◌∷◌, ◌⊎◌,
}

-- `Config`, without the logger.
pub record DingtalkOptions : Type 0 where
  pub webhook_token : Text
  pub signing_secret : Text
  pub language : Text
  pub timeout : ℤ
  pub max_items : ℤ
  pub at_user_ids : List Text
  pub at_mobiles : List Text
  pub at_all : Bool

pub data DingtalkError : Type 0 where
  token_required secret_required bad_credentials bad_language bad_timeout bad_max_items
        mixed_mentions :
      DingtalkError

pub record AtContent : Type 0 where
  pub mobiles : List Text
  pub user_ids : List Text
  pub at_all : Bool

pub record DingtalkClient : Type 0 where
  pub token : Text
  pub secret : Text
  pub language : Text
  pub max_items : ℕ
  pub at : AtContent
  pub timeout : ℕ

-- `validateLanguage`: the language is known.
unfoldable pub known_language : Text → Bool
known_language language = text_eq language (str "zh-CN") || text_eq language (str "en")

-- `New`.
unfoldable pub new_dingtalk : DingtalkOptions → DingtalkError ⊎ DingtalkClient
new_dingtalk o =
    if is_blank o.webhook_token
    then inl token_required
    else if is_blank o.signing_secret
    then inl secret_required
    else if contains_any_char o.webhook_token (13 ∷ 10 ∷ [])
        || contains_any_char o.signing_secret (13 ∷ 10 ∷ [])
    then inl bad_credentials
    else if not (known_language o.language)
    then inl bad_language
    else if not (ltb 0 (pos_part o.timeout))
    then inl bad_timeout
    else if not (leb 1 (pos_part o.max_items) && leb (pos_part o.max_items) 50)
    then inl bad_max_items
    else if o.at_all && (not (is_empty o.at_user_ids) || not (is_empty o.at_mobiles))
    then inl mixed_mentions
    else inr (record {
      token = o.webhook_token;
      secret = o.signing_secret;
      language = o.language;
      max_items = pos_part o.max_items;
      at = record { mobiles = o.at_mobiles; user_ids = o.at_user_ids; at_all = o.at_all };
      timeout = pos_part o.timeout;
    })
