-- ===== src/Collector/Escapes.antt =====
-- The escapes of a mountinfo field, which `decodeMountInfoField` of internal/collector/mountinfo.go
-- reads.
use cpa_monitor.Base.{
  ==_iff, Bool-cases, Text, [], ap, arith, false, if◌then◌else◌, inl, inr, refl, some, str, subst,
  sym, true, ℕ, ◌++◌, ◌==◌, ◌∙◌, ◌∷◌, ◌≡◌,
}
use cpa_monitor.Collector.Mounts.{unescape, onto_decoded, decode_field}

-- The kernel's writing of a character, with three octal digits after a backslash.
abbrev escape_char : ℕ → Text
escape_char c =
    if c == b' '
    then str "\\040"
    else if c == 9
    then str "\\011"
    else if c == 10
    then str "\\012"
    else if c == b'\\'
    then str "\\134"
    else c ∷ []

unfoldable pub escape_field : Text → Text
escape_field [] = []
escape_field (c ∷ s) = escape_char c ++ escape_field s

decode_field-plain :
    (c : ℕ) (s : Text)
    → (c == b'\\') ≡ false
    → decode_field (c ∷ s) ≡ onto_decoded (some c) (decode_field s)
unfolding decode_field onto_decoded
decode_field-plain c [] h = ground (arith, h)
decode_field-plain c (x ∷ []) h = rw (h) refl
decode_field-plain c (x ∷ y ∷ []) h = rw (h) refl
decode_field-plain c (x ∷ y ∷ z ∷ s) h = rw (h) refl

abbrev Reads : Text → ℕ → Type 0
Reads s c = decode_field (escape_char c ++ s) ≡ onto_decoded (some c) (decode_field s)

Reads-at : (s : Text) (k c : ℕ) → (c == k) ≡ true → Reads s k → Reads s c
Reads-at s k c h r = subst (Reads s) (sym (let same = ==_iff c k in ground (arith, same, h))) r

decode_field-escaped : (c : ℕ) (s : Text) → Reads s c
unfolding str decode_field unescape
decode_field-escaped c s = elim (Bool-cases (c == b' ')) [
  | inl e ↦ Reads-at s b' ' c e refl
  | inr e1 ↦ elim (Bool-cases (c == 9)) [
    | inl e ↦ Reads-at s 9 c e refl
    | inr e2 ↦ elim (Bool-cases (c == 10)) [
      | inl e ↦ Reads-at s 10 c e refl
      | inr e3 ↦ elim (Bool-cases (c == b'\\')) [
        | inl e ↦ Reads-at s b'\\' c e refl
        | inr e4 ↦ rw (e1, e2, e3, e4) (decode_field-plain c s e4)
      ]
    ]
  ]
]

-- A text whose blanks, tabs, line feeds and backslashes are escaped is read back as the text.
pub decode_field-escape_field : (t : Text) → decode_field (escape_field t) ≡ some t
unfolding decode_field escape_field onto_decoded
decode_field-escape_field [] = refl
decode_field-escape_field (c ∷ s) =
    decode_field-escaped c (escape_field s)
    ∙ ap (onto_decoded (some c)) (decode_field-escape_field s)
