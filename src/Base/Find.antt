-- ===== src/Base/Find.antt =====
-- What a lookup finds after each operation on a map.
use mathlib.Core.Path.{◌≡◌, refl}
use mathlib.Core.Bool.{Bool, true}
use mathlib.Core.Logic.{inl, inr}
use mathlib.Core.Option.{Option, none, some}
use mathlib.Core.List.{List, [], ◌∷◌, ◌++◌}
use native.Mathlib.Omega.{arith}
use cpa_monitor.Base.Tests.{if◌then◌else◌, Bool-cases}
use cpa_monitor.Base.Lists.{keep, All}
use cpa_monitor.Base.Strings.{Text, text_eq, text_eq_iff}
use cpa_monitor.Base.Keyed.{find, put, remove, has, Distinct}

pub text_eq_refl : (s : Text) → text_eq s s ≡ true
text_eq_refl s = (text_eq_iff s s).1 refl

abbrev pub keep_if {ℓ} : {A : Type ℓ} → (A → Bool) → Option A → Option A
keep_if p none = none
keep_if p (some x) = if p x then some x else none

module _ {ℓ} {A : Type ℓ} (key : A → Text) where
  pub find-put :
      (j : Text) (x : A) (xs : List A)
      → find key j (put key x xs) ≡ (if text_eq (key x) j then some x else find key j xs)
  unfolding find put
  find-put j x [] = refl
  find-put j x (y ∷ ys) = ground (
    arith,
    text_eq_iff (key y) (key x),
    text_eq_iff (key y) j,
    text_eq_iff (key x) j,
    find-put j x ys,
  )

  pub find-remove :
      (j k : Text) (xs : List A)
      → find key j (remove key k xs) ≡ (if text_eq k j then none else find key j xs)
  unfolding find remove
  find-remove j k [] = ground arith
  find-remove j k (y ∷ ys) =
      ground
        (arith, text_eq_iff (key y) k, text_eq_iff (key y) j, text_eq_iff k j, find-remove j k ys)

  pub find-append :
      (j : Text) (xs ys : List A)
      → find key j (xs ++ ys) ≡ (if has key j xs then find key j xs else find key j ys)
  unfolding find
  find-append j [] ys = refl
  find-append j (x ∷ xs) ys = ground (arith, find-append j xs ys)

  -- What is found under a key has that key.
  pub find-key : (j : Text) (xs : List A) {x : A} → find key j xs ≡ some x → key x ≡ j
  unfolding find
  find-key j [] h = cc
  find-key j (y ∷ ys) {x} h = ground (arith, text_eq_iff (key y) j, find-key j ys {x = x})

  pub find-All {κ} :
      (P : A → Type κ) (j : Text) (xs : List A) {x : A} → All P xs → find key j xs ≡ some x → P x
  unfolding find
  find-All P j [] h e = ground arith
  find-All P j (y ∷ ys) {x} h e = elim (Bool-cases (text_eq (key y) j)) [
    | inl t ↦ let same : y ≡ x = ground arith in rw (← same) (h.0)
    | inr f ↦ find-All P j ys h.1 (ground arith)
  ]

  pub find-keep-none :
      (p : A → Bool) (j : Text) (xs : List A) → find key j xs ≡ none → find key j (keep p xs) ≡ none
  unfolding find keep
  find-keep-none p j [] h = refl
  find-keep-none p j (y ∷ ys) h = ground (arith, find-keep-none p j ys)

  pub find-keep :
      (p : A → Bool) (j : Text) (xs : List A)
      → Distinct key xs
      → find key j (keep p xs) ≡ keep_if p (find key j xs)
  unfolding find keep
  find-keep p j [] d = refl
  find-keep p j (y ∷ ys) d =
      ground (arith, text_eq_iff (key y) j, find-keep p j ys d.1, find-keep-none p (key y) ys d.0)

  pub Distinct-keep : (p : A → Bool) (xs : List A) → Distinct key xs → Distinct key (keep p xs)
  unfolding keep
  Distinct-keep p [] d = tt
  Distinct-keep p (y ∷ ys) d = elim (Bool-cases (p y)) [
    | inl t ↦ rw t (find-keep-none p (key y) ys d.0, Distinct-keep p ys d.1)
    | inr f ↦ rw f (Distinct-keep p ys d.1)
  ]

  pub Distinct-put : (x : A) (xs : List A) → Distinct key xs → Distinct key (put key x xs)
  unfolding put
  Distinct-put x [] d = (unfold find in refl, tt)
  Distinct-put x (y ∷ ys) d = elim (Bool-cases (text_eq (key y) (key x))) [
    | inl t ↦ rw t (rw (← (text_eq_iff (key y) (key x)).0 t) (d.0), d.1)
    | inr f ↦ rw f (
      ground
          (arith, find-put (key y) x ys, text_eq_iff (key y) (key x), text_eq_iff (key x) (key y)),
      Distinct-put x ys d.1,
    )
  ]

  pub Distinct-remove : (k : Text) (xs : List A) → Distinct key xs → Distinct key (remove key k xs)
  unfolding remove
  Distinct-remove k [] d = tt
  Distinct-remove k (y ∷ ys) d = elim (Bool-cases (text_eq (key y) k)) [
    | inl t ↦ rw t (Distinct-remove k ys d.1)
    | inr f ↦ rw f (ground (arith, find-remove (key y) k ys), Distinct-remove k ys d.1)
  ]
