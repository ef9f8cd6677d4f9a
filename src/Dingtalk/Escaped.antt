-- ===== src/Dingtalk/Escaped.antt =====
-- `escapeMarkdown` of internal/dingtalk/message.go: how a reader of Markdown sees what it writes.
use mathlib.Core.List.{flat_map, append_assoc}
use cpa_monitor.Base.{
  All, All-append, Bool, Bool-cases, Text, [], arith, char_mem, false, if◌then◌else◌, inl, inr,
  is_control, keep, keep-passes, refl, str, true, ℕ, ◌++◌, ◌==◌, ◌∙◌, ◌∷◌, ◌≡◌,
}
use cpa_monitor.Dingtalk.Markdown.{shown_rune, markdown_rune, escape_markdown}

-- The characters that mark up a text unless a backslash stands before them.
abbrev pub active : ℕ → Bool
active c = char_mem c (str "`*_[]#<>")

-- No active character is read; the flag says that a backslash was read just before.
unfoldable pub is_inert : Bool → Text → Bool
is_inert false [] = true
is_inert true [] = false
is_inert true (c ∷ s) = is_inert false s
is_inert false (c ∷ s) =
    let escaped = is_inert true s in
    let plain = is_inert false s in
    if c == b'\\' then escaped else if active c then false else plain

markdown_rune-inert :
    (c : ℕ) (rest : Text) → is_inert false (markdown_rune c ++ rest) ≡ is_inert false rest
unfolding markdown_rune is_inert char_mem str
markdown_rune-inert c rest = ground arith

flat_map-inert :
    (s rest : Text) → is_inert false (flat_map markdown_rune s ++ rest) ≡ is_inert false rest
unfolding flat_map
flat_map-inert [] rest = refl
flat_map-inert (c ∷ s) rest =
    rw append_assoc
      (markdown_rune-inert c (flat_map markdown_rune s ++ rest) ∙ flat_map-inert s rest)

entity_shown : (c : ℕ) → shown_rune c ≡ true → All (λ d. shown_rune d ≡ true) (b'&' ∷ c ∷ str "t;")
unfolding shown_rune is_control str
entity_shown c h = (refl, (h, (refl, (refl, tt))))

markdown_rune-shown :
    (c : ℕ) → shown_rune c ≡ true → All (λ d. shown_rune d ≡ true) (markdown_rune c)
unfolding markdown_rune char_mem str
markdown_rune-shown c h = elim (Bool-cases (char_mem c (str "\\`*_[]#"))) [
  | inl t ↦ rw t (unfold shown_rune is_control in refl, (h, tt))
  | inr f ↦ rw f (elim (Bool-cases (c == b'<')) [
    | inl t ↦ rw t (entity_shown b'l' (unfold shown_rune is_control in refl))
    | inr g ↦ rw g (elim (Bool-cases (c == b'>')) [
      | inl t ↦ rw t (entity_shown b'g' (unfold shown_rune is_control in refl))
      | inr k ↦ rw k (h, tt)
    ])
  ])
]

flat_map-shown :
    (s : Text)
    → All (λ d. shown_rune d ≡ true) s
    → All (λ d. shown_rune d ≡ true) (flat_map markdown_rune s)
unfolding flat_map
flat_map-shown [] a = tt
flat_map-shown (c ∷ s) a =
    All-append _ (markdown_rune c) (flat_map markdown_rune s) (markdown_rune-shown c a.0)
      (flat_map-shown s a.1)

-- Whatever the value, a reader for whom a backslash takes the next character as it is, and the active
-- ones are ` * _ [ ] # < > and no others, meets no active character in its escaped text, and reads on
-- behind it as if it were not there; and no control character but a line break or a tab is left in it.
pub escape_markdown-inert :
    (value rest : Text)
    → (is_inert false (escape_markdown value ++ rest) ≡ is_inert false rest)
      × All (λ c. shown_rune c ≡ true) (escape_markdown value)
unfolding escape_markdown
escape_markdown-inert value rest = (
  flat_map-inert (keep shown_rune value) rest,
  flat_map-shown (keep shown_rune value) (keep-passes shown_rune value),
)
