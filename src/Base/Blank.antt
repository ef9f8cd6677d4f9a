-- ===== src/Base/Blank.antt =====
-- A text that begins with a visible character is not blank.
use Prim.Native.Nat.{ℕ}
use mathlib.Core.Path.{◌≡◌, refl}
use mathlib.Core.Bool.{false}
use mathlib.Core.Logic.{inl, inr}
use mathlib.Core.List.{[], ◌∷◌, ◌++◌, reverse, reverse-cons}
use cpa_monitor.Base.Tests.{Bool-cases}
use cpa_monitor.Base.Lists.{is_empty}
use cpa_monitor.Base.Strings.{Text, is_space, trim_left, is_blank}

trim_left-visible :
    (s : Text) (c : ℕ) → is_space c ≡ false → is_empty (trim_left (s ++ c ∷ [])) ≡ false
unfolding trim_left
trim_left-visible [] c h = rw h
trim_left-visible (d ∷ s) c h = elim (Bool-cases (is_space d)) [
  | inl t ↦ rw t (trim_left-visible s c h)
  | inr f ↦ rw f
]

is_empty-reverse : (s : Text) → is_empty s ≡ false → is_empty (reverse s) ≡ false
is_empty-reverse [] h = h
is_empty-reverse (c ∷ s) h = rw reverse-cons (snoc (reverse s))
  where
    snoc : (t : Text) → is_empty (t ++ c ∷ []) ≡ false
    snoc [] = refl
    snoc (d ∷ t) = refl

pub is_blank-cons : (c : ℕ) (s : Text) → is_space c ≡ false → is_blank (c ∷ s) ≡ false
unfolding is_blank
is_blank-cons c s h =
    is_empty-reverse (trim_left (reverse (trim_left (c ∷ s))))
      (rw head_stays (rw reverse-cons (trim_left-visible (reverse s) c h)))
  where
    head_stays : trim_left (c ∷ s) ≡ c ∷ s
    head_stays = unfold trim_left in rw h
