-- ===== src/Base/Seen.antt =====
-- The loops that reject a key seen before, `if _, dup := seen[k]; dup { ... }; seen[k] = struct{}{}`.
use mathlib.Core.Path.{◌≡◌, refl}
use mathlib.Core.Bool.{Bool, true, false}
use mathlib.Core.Option.{none}
use mathlib.Core.List.{List, [], ◌∷◌}
use native.Mathlib.Omega.{arith}
use cpa_monitor.Base.Tests.{if◌then◌else◌}
use cpa_monitor.Base.Lists.{All}
use cpa_monitor.Base.Strings.{Text, text_eq, text_eq_iff}
use cpa_monitor.Base.Keyed.{find}

unfoldable pub text_mem : Text → List Text → Bool
text_mem k [] = false
text_mem k (j ∷ js) = let rest = text_mem k js in if text_eq j k then true else rest

module _ {ℓ} {A : Type ℓ} (key : A → Text) where
  -- No value has a key that was seen.
  abbrev pub Fresh : List Text → List A → Type 0
  Fresh seen xs = All (λ x. text_mem (key x) seen ≡ false) xs

  pub Fresh-nil : (xs : List A) → Fresh [] xs
  Fresh-nil [] = tt
  Fresh-nil (x ∷ xs) = (unfold text_mem in refl, Fresh-nil xs)

  pub Fresh-cons :
      (k : Text) (seen : List Text) (xs : List A)
      → find key k xs ≡ none
      → Fresh seen xs
      → Fresh (k ∷ seen) xs
  unfolding find
  Fresh-cons k seen [] n f = tt
  Fresh-cons k seen (x ∷ xs) n f = (
    unfold text_mem in ground (arith, text_eq_iff k (key x), text_eq_iff (key x) k),
    Fresh-cons k seen xs (ground arith) f.1,
  )

  pub Fresh-uncons :
      (k : Text) (seen : List Text) (xs : List A)
      → Fresh (k ∷ seen) xs
      → (find key k xs ≡ none) × Fresh seen xs
  unfolding find text_mem
  Fresh-uncons k seen [] f = (refl, tt)
  Fresh-uncons k seen (x ∷ xs) f =
      let rest = Fresh-uncons k seen xs f.1 in
      (ground (arith, text_eq_iff k (key x), text_eq_iff (key x) k), (ground arith, rest.1))
