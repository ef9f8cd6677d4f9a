-- ===== src/Base/Keyed.antt =====
-- Go maps from a string to a value that holds its own key (`m[v.Key] = v`): lists of values.
-- Iteration order is random in Go, and every use sorts what it reads, which `sort` does here.
use mathlib.Core.Path.{◌≡◌}
use mathlib.Core.Bool.{Bool, true}
use mathlib.Core.Option.{Option, none, some}
use mathlib.Core.List.{List, [], ◌∷◌}
use cpa_monitor.Base.Tests.{if◌then◌else◌, is_some}
use cpa_monitor.Base.Strings.{Text, text_eq, text_ltb}

module _ {ℓ} {A : Type ℓ} (key : A → Text) where
  -- `m[k]`.
  unfoldable pub find : Text → List A → Option A
  find k [] = none
  find k (x ∷ xs) = if text_eq (key x) k then some x else find k xs

  -- `_, ok := m[k]`.
  abbrev pub has : Text → List A → Bool
  has k xs = is_some (find k xs)

  -- `m[x.Key] = x`.
  unfoldable pub put : A → List A → List A
  put x [] = x ∷ []
  put x (y ∷ ys) = if text_eq (key y) (key x) then x ∷ ys else y ∷ put x ys

  -- `delete(m, k)`.
  unfoldable pub remove : Text → List A → List A
  remove k [] = []
  remove k (x ∷ xs) = let rest = remove k xs in if text_eq (key x) k then rest else x ∷ rest

  -- The loop `for _, x := range xs { m[x.Key] = x }`.
  unfoldable pub put_all : List A → List A → List A
  put_all [] m = m
  put_all (x ∷ xs) m = put_all xs (put x m)

  unfoldable pub insert : A → List A → List A
  insert x [] = x ∷ []
  insert x (y ∷ ys) =
      let rest = insert x ys in if text_ltb (key y) (key x) then y ∷ rest else x ∷ y ∷ ys

  -- `sort.Slice(xs, func(i, j) { return xs[i].Key < xs[j].Key })`, at distinct keys.
  unfoldable pub sort : List A → List A
  sort [] = []
  sort (x ∷ xs) = insert x (sort xs)

  -- No two values have one key.
  abbrev pub Distinct : List A → Type ℓ
  Distinct [] = Unit
  Distinct (x ∷ xs) = (find (key x) xs ≡ none) × Distinct xs

  abbrev pub Below : Text → List A → Type 0
  Below k [] = Unit
  Below k (x ∷ xs) = (text_ltb k (key x) ≡ true) × Below k xs

  -- Keys rise strictly.
  abbrev pub IsSorted : List A → Type 0
  IsSorted [] = Unit
  IsSorted (x ∷ xs) = Below (key x) xs × IsSorted xs
