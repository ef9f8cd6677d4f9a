-- ===== src/Dingtalk/Markdown.antt =====
-- The writing helpers of internal/dingtalk/message.go: escaping, truncation and fields. A text builder
-- is the text that it will give.
use mathlib.Core.List.{flat_map}
use cpa_monitor.Base.{
  Bool, List, Text, [], char_mem, if◌then◌else◌, is_blank, is_control, is_empty, join, keep, leb,
  length, map, not, split, str, take, text_eq, trim_space, ℕ, ◌&&◌, ◌++◌, ◌-◌, ◌==◌, ◌∷◌,
}
use cpa_monitor.Dingtalk.{AtContent}

abbrev pub max_field_runes : ℕ
max_field_runes = 1500

abbrev pub max_markdown_runes : ℕ
max_markdown_runes = 18000

-- The test of `strings.Map` in `escapeMarkdown`: what it keeps.
unfoldable pub shown_rune : ℕ → Bool
shown_rune c = not (is_control c && (not (c == 10) && not (c == 9)))

-- The replacer of `escapeMarkdown`, on one character.
unfoldable pub markdown_rune : ℕ → Text
markdown_rune c =
    if char_mem c (str "\\`*_[]#")
    then b'\\' ∷ c ∷ []
    else if c == b'<'
    then str "&lt;"
    else if c == b'>'
    then str "&gt;"
    else c ∷ []

-- `escapeMarkdown`.
unfoldable pub escape_markdown : Text → Text
escape_markdown value = flat_map markdown_rune (keep shown_rune value)

-- `truncateRunes`, for a limit above 0.
unfoldable pub truncate_runes : Text → ℕ → Text
truncate_runes value limit =
    if leb (length value) limit then value else take (limit - 1) value ++ str "…"

unfoldable pub truncation_suffix : Text → Text
truncation_suffix language =
    10
    ∷ 10
    ∷ (if text_eq language (str "zh-CN")
        then str "> 消息内容已截断，请查看监控日志获取完整详情。"
        else str "> Message truncated; see monitor logs for complete details.")

-- `fitMarkdown`.
unfoldable pub fit_markdown : Text → Text → Text
fit_markdown value language =
    if leb (length value) max_markdown_runes
    then value
    else take (max_markdown_runes - length (truncation_suffix language)) value
      ++ truncation_suffix language

-- `writeMarkdownField`.
unfoldable pub markdown_field : Text → Text → Text
markdown_field label value =
    str "- **"
    ++ escape_markdown label
    ++ str "**："
    ++ join (str "<br>")
        (map escape_markdown (split 10 (truncate_runes (trim_space value) max_field_runes)))
    ++ 10 ∷ []

-- The loop of `writeMentions`.
unfoldable pub mobile_mentions : List Text → Text
mobile_mentions [] = []
mobile_mentions (m ∷ ms) = str "@" ++ escape_markdown m ++ str " " ++ mobile_mentions ms

-- `writeMentions`.
unfoldable pub mentions : AtContent → Text
mentions at =
    (if at.at_all then str "@all" ++ 10 ∷ 10 ∷ [] else [])
    ++ mobile_mentions at.mobiles
    ++ (if is_empty at.mobiles then [] else 10 ∷ 10 ∷ [])

-- The replacer of `markdownLink`, on one character.
unfoldable pub link_rune : ℕ → Text
link_rune c =
    if c == b'\\'
    then str "%5C"
    else if c == b'('
    then str "%28"
    else if c == b')'
    then str "%29"
    else if c == 32
    then str "%20"
    else c ∷ []

-- `markdownLink`.
unfoldable pub markdown_link : Text → Text → Text
markdown_link label target =
    str "["
    ++ escape_markdown label
    ++ str "]("
    ++ flat_map link_rune (trim_space target)
    ++ str ")"

-- `writeCompactField`.
unfoldable pub compact_field : Text → Text → Text
compact_field label value =
    if is_blank value
    then []
    else str "**"
      ++ escape_markdown label
      ++ str "** "
      ++ escape_markdown (trim_space value)
      ++ 10 ∷ 10 ∷ []
