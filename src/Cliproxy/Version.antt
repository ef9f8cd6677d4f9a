-- ===== src/Cliproxy/Version.antt =====
-- The comparison of releases in internal/cliproxy/version.go. `equal_fold` is `strings.EqualFold`.
use cpa_monitor.Base.{
  Bool, List, Option, Text, [], cut, equal_fold, if◌then◌else◌, is_empty, ltb, none, parse_uint,
  some, split, text_eq, text_ltb, trim_space, ℕ, ◌==◌, ◌||◌, ◌∷◌,
}

-- The results -1, 0 and 1.
pub data Order : Type 0 where
  below level above : Order

abbrev pub flip : Order → Order
flip below = above
flip level = level
flip above = below

-- `semanticVersion`.
pub record SemanticVersion : Type 0 where
  pub major : ℕ
  pub minor : ℕ
  pub patch : ℕ
  pub prerelease : Text

unfoldable pub compare_numbers : ℕ → ℕ → Order
compare_numbers a b = if ltb a b then below else if ltb b a then above else level

-- Two identifiers that differ.
unfoldable pub compare_identifiers : Text → Text → Order
compare_identifiers a b = elim (parse_uint 10 64 a) [
  | some n ↦ elim (parse_uint 10 64 b) [ some m ↦ if ltb n m then below else above | none ↦ below ]
  | none ↦ elim (parse_uint 10 64 b) [
    | some m ↦ above
    | none ↦ if text_ltb a b then below else above
  ]
]

-- `comparePrerelease` on the parts.
unfoldable pub compare_parts : List Text → List Text → Order
compare_parts [] [] = level
compare_parts [] (b ∷ bs) = below
compare_parts (a ∷ rest') [] = above
compare_parts (a ∷ rest') (b ∷ bs) =
    let rest = compare_parts rest' bs in if text_eq a b then rest else compare_identifiers a b

-- `comparePrerelease`.
unfoldable pub compare_prerelease : Text → Text → Order
compare_prerelease left right = compare_parts (split b'.' left) (split b'.' right)

-- The comparison after the core.
unfoldable pub compare_rest : Text → Text → Order
compare_rest left right =
    if text_eq left right
    then level
    else if is_empty left
    then above
    else if is_empty right
    then below
    else compare_prerelease left right

abbrev pub then_order : Order → Order → Order
then_order below later = below
then_order level later = later
then_order above later = above

-- `compareReleaseVersions` on what was parsed.
unfoldable pub compare_versions : SemanticVersion → SemanticVersion → Order
compare_versions x y = then_order (compare_numbers x.major y.major) (
    then_order (compare_numbers x.minor y.minor)
      (then_order (compare_numbers x.patch y.patch) (compare_rest x.prerelease y.prerelease)))

-- A part of the core.
unfoldable pub core_number : Text → Option ℕ
core_number [] = none
core_number (c ∷ []) = parse_uint 10 64 (c ∷ [])
core_number (c ∷ d ∷ s) = if c == b'0' then none else parse_uint 10 64 (c ∷ d ∷ s)

unfoldable pub read_core : Text → List Text → Option SemanticVersion
read_core prerelease (a ∷ b ∷ c ∷ []) = elim (core_number a) [
  | none ↦ none
  | some major ↦ elim (core_number b) [
    | none ↦ none
    | some minor ↦ elim (core_number c) [
      | none ↦ none
      | some patch ↦
          some (record { major = major; minor = minor; patch = patch; prerelease = prerelease })
    ]
  ]
]
read_core prerelease _ = none

unfoldable pub without_v : Text → Text
without_v [] = []
without_v (c ∷ s) = if c == b'v' || c == b'V' then s else c ∷ s

unfoldable pub before_plus : Text → Text
before_plus s = elim (cut b'+' s) [ none ↦ s | some (before, build) ↦ before ]

-- `parseSemanticVersion`.
unfoldable pub parse_semantic_version : Text → Option SemanticVersion
parse_semantic_version value =
    let s = before_plus (without_v (trim_space value)) in
    elim (cut b'-' s) [
      | none ↦ read_core [] (split b'.' s)
      | some (core, prerelease) ↦
          if is_empty prerelease then none else read_core prerelease (split b'.' core)
    ]

-- `strings.TrimPrefix(s, "v")`.
unfoldable pub trim_v : Text → Text
trim_v [] = []
trim_v (c ∷ s) = if c == b'v' then s else c ∷ s

unfoldable pub compare_read : Option SemanticVersion → Option SemanticVersion → Option Order
compare_read (some x) (some y) = some (compare_versions x y)
compare_read none y = none
compare_read (some x) none = none

-- `compareReleaseVersions`; none where a version is not one.
unfoldable pub compare_release_versions : (Text → Text → Bool) → Text → Text → Option Order
compare_release_versions equal_fold current latest =
    if equal_fold (trim_v (trim_space current)) (trim_v (trim_space latest))
    then some level
    else compare_read (parse_semantic_version (trim_space current))
        (parse_semantic_version (trim_space latest))
