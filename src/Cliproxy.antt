-- ===== src/Cliproxy.antt =====
-- The account list of CLIProxyAPI: internal/cliproxy/types.go.
pub mod Client
pub mod Version
pub mod Releases
pub mod Quota
pub mod Windows
use cpa_monitor.Base.{
  Bool, List, Option, Text, [], has, if◌then◌else◌, int64, is_empty, leb, none, not, some, split,
  str, text_eq, trim_space, true, ℤ, ◌&&◌, ◌==◌, ◌||◌, ◌∷◌,
}

-- The counters are int64 values.
pub record RecentRequest : Type 0 where
  pub time : Text
  pub success : ℤ
  pub failed : ℤ

pub record AuthFile : Type 0 where
  pub auth_index : Text
  pub name : Text
  pub kind : Text
  pub provider : Text
  pub email : Text
  pub account : Text
  pub status : Text
  pub status_message : Text
  pub disabled : Bool
  pub unavailable : Bool
  pub success : ℤ
  pub failed : ℤ
  pub recent_requests : List RecentRequest
  pub id_token : Text

-- A decoded JSON object, as `ChatGPTAccountID` looks into it: its string values, and those of the
-- object that it holds at "https://api.openai.com/auth", which has none where there is no such object.
pub record Claims : Type 0 where
  pub string_at : Text → Option Text
  pub auth_string_at : Text → Option Text

-- encoding/json and encoding/base64: a JSON string, raw URL base64, and a JSON object.
pub record Decoders : Type 0 where
  pub unquote : Text → Option Text
  pub raw_url : Text → Option Text
  pub claims : Text → Option Claims

-- The first value that is not blank, trimmed.
unfoldable pub first_visible : List (Option Text) → Text
first_visible [] = []
first_visible (none ∷ vs) = first_visible vs
first_visible (some v ∷ vs) =
    let rest = first_visible vs in if is_empty (trim_space v) then rest else trim_space v

-- The second part of a token.
unfoldable pub token_payload : List Text → Option Text
token_payload (header ∷ payload ∷ rest) = some payload
token_payload _ = none

-- The JSON text with the claims, taken out of a token where the field holds one.
unfoldable pub claims_text : Decoders → Text → Option Text
claims_text d [] = none
claims_text d (c ∷ s) =
    if text_eq (c ∷ s) (str "null")
    then none
    else if c == 34
    then (elim (d.unquote (c ∷ s)) [
      | none ↦ none
      | some token ↦ elim (token_payload (split 46 token)) [
        | none ↦ none
        | some payload ↦ d.raw_url payload
      ]
    ])
    else some (c ∷ s)

unfoldable pub claims_account : Claims → Text
claims_account c = first_visible (
    c.string_at (str "chatgpt_account_id")
    ∷ c.string_at (str "chatgptAccountId")
    ∷ c.auth_string_at (str "chatgpt_account_id")
    ∷ c.auth_string_at (str "chatgptAccountId")
    ∷ [])

-- `ChatGPTAccountID`.
unfoldable pub chatgpt_account_id : Decoders → AuthFile → Text
chatgpt_account_id d file = elim (claims_text d (trim_space file.id_token)) [
  | none ↦ []
  | some raw ↦ elim (d.claims raw) [ none ↦ [] | some c ↦ claims_account c ]
]

unfoldable pub all_decimal : Text → Bool
all_decimal [] = true
all_decimal (c ∷ s) = (leb b'0' c && leb c b'9') && all_decimal s

-- An integer as JSON spells it.
unfoldable pub integer_text : Text → Text → Option Text
integer_text raw digits =
    if is_empty digits || not (all_decimal digits)
    then none
    else if text_eq raw (str "-0")
    then some (str "0")
    else some raw

-- `normalizeAuthIndex`, of a value without the white space around it; none where it gives an error.
unfoldable pub normalize_auth_index : Decoders → Text → Option Text
normalize_auth_index d [] = some []
normalize_auth_index d (c ∷ s) =
    if c == 34 then d.unquote (c ∷ s) else integer_text (c ∷ s) (if c == b'-' then s else c ∷ s)
