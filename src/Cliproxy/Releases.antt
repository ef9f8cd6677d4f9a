-- ===== src/Cliproxy/Releases.antt =====
-- The order of releases that internal/cliproxy/version.go decides.
use cpa_monitor.Base.{
  Bool, List, Text, [], arith, false, is_empty, none, not, parse_uint, refl, some, split, text_eq,
  text_eq_iff, text_ltb, text_ltb_total, true, ℕ, ◌&&◌, ◌==◌, ◌||◌, ◌∷◌, ◌≡◌,
}
use cpa_monitor.Cliproxy.Version.{
  Order, flip, below, level, above, SemanticVersion, compare_numbers, compare_identifiers,
  compare_parts, compare_prerelease, compare_rest, then_order, compare_versions,
}

compare_numbers-flip : (a b : ℕ) → compare_numbers b a ≡ flip (compare_numbers a b)
unfolding compare_numbers
compare_numbers-flip a b = ground arith

-- Numbers of one value are spelled in one way.
unfoldable pub one_spelling : Text → Text → Bool
one_spelling a b = elim (parse_uint 10 64 a) [
  | none ↦ true
  | some n ↦ elim (parse_uint 10 64 b) [ none ↦ true | some m ↦ not (n == m) || text_eq a b ]
]

unfoldable pub one_spelling_each : List Text → List Text → Bool
one_spelling_each (a ∷ xs) (b ∷ ys) = one_spelling a b && one_spelling_each xs ys
one_spelling_each _ _ = true

text_ltb_asym : (a b : Text) → text_ltb a b ≡ true → text_ltb b a ≡ false
unfolding text_ltb
text_ltb_asym [] [] h = ground arith
text_ltb_asym [] (d ∷ t) h = refl
text_ltb_asym (c ∷ s) [] h = ground arith
text_ltb_asym (c ∷ s) (d ∷ t) h = ground (arith, text_ltb_asym s t)

compare_identifiers-flip :
    (a b : Text)
    → one_spelling a b ≡ true
    → text_eq a b ≡ false
    → compare_identifiers b a ≡ flip (compare_identifiers a b)
unfolding compare_identifiers one_spelling
compare_identifiers-flip a b h k =
    ground (arith, text_ltb_asym a b, text_ltb_total a b, text_eq_iff a b)

compare_parts-flip :
    (xs ys : List Text)
    → one_spelling_each xs ys ≡ true
    → compare_parts ys xs ≡ flip (compare_parts xs ys)
unfolding compare_parts one_spelling_each
compare_parts-flip [] [] h = refl
compare_parts-flip [] (b ∷ ys) h = refl
compare_parts-flip (a ∷ xs) [] h = refl
compare_parts-flip (a ∷ xs) (b ∷ ys) h = ground (
  arith,
  compare_parts-flip xs ys,
  compare_identifiers-flip a b,
  text_eq_iff a b,
  text_eq_iff b a,
)

empty_texts : (x y : Text) → is_empty x ≡ true → is_empty y ≡ true → x ≡ y
empty_texts [] [] h k = refl
empty_texts [] (d ∷ t) h k = absurd (ground (arith, k))
empty_texts (c ∷ s) y h k = absurd (ground (arith, h))

compare_rest-flip :
    (x y : Text)
    → one_spelling_each (split b'.' x) (split b'.' y) ≡ true
    → compare_rest y x ≡ flip (compare_rest x y)
unfolding compare_rest compare_prerelease
compare_rest-flip x y h = ground (
  arith,
  compare_parts-flip (split b'.' x) (split b'.' y) h,
  text_eq_iff x y,
  text_eq_iff y x,
  empty_texts x y,
)

then_order-flip :
    (a b c d : Order) → b ≡ flip a → d ≡ flip c → then_order b d ≡ flip (then_order a c)
then_order-flip below b c d h k = rw (h) refl
then_order-flip level b c d h k = rw (h) k
then_order-flip above b c d h k = rw (h) refl

-- The comparison of two versions, turned round, gives the opposite, where the numbers in their
-- prereleases that stand at one place and have one value are spelled alike.
pub compare_versions-flip :
    (x y : SemanticVersion)
    → one_spelling_each (split b'.' x.prerelease) (split b'.' y.prerelease) ≡ true
    → compare_versions y x ≡ flip (compare_versions x y)
unfolding compare_versions
compare_versions-flip x y h = then_order-flip _ _ _ _ (compare_numbers-flip x.major y.major) (
    then_order-flip _ _ _ _ (compare_numbers-flip x.minor y.minor) (
      then_order-flip _ _ _ _ (compare_numbers-flip x.patch y.patch)
        (compare_rest-flip x.prerelease y.prerelease h)))
