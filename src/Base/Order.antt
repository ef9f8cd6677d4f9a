-- ===== src/Base/Order.antt =====
-- Sorting by key: what is found stays, and the result rises strictly.
use mathlib.Core.Path.{◌≡◌, refl, sym, ap₂, ◌∙◌}
use mathlib.Core.Bool.{true, false}
use mathlib.Core.Logic.{◌⊎◌, inl, inr}
use mathlib.Core.Option.{none, some}
use mathlib.Core.List.{List, [], ◌∷◌}
use native.Mathlib.Omega.{arith}
use cpa_monitor.Base.Lists.{All}
use cpa_monitor.Base.Tests.{if◌then◌else◌, Bool-cases, is_some}
use cpa_monitor.Base.Strings.{
  Text, text_eq, text_eq_iff, text_ltb, text_ltb_irrefl, text_ltb_trans, text_ltb_total,
}
use cpa_monitor.Base.Find.{find-put, Distinct-put}
use cpa_monitor.Base.Keyed.{find, put, put_all, remove, insert, sort, Distinct, Below, IsSorted}

module _ {ℓ} {A : Type ℓ} (key : A → Text) where
  find-insert :
      (j : Text) (x : A) (xs : List A)
      → find key (key x) xs ≡ none
      → find key j (insert key x xs) ≡ (if text_eq (key x) j then some x else find key j xs)
  unfolding find insert
  find-insert j x [] d = refl
  find-insert j x (y ∷ ys) d = ground (
    arith,
    text_eq_iff (key y) (key x),
    text_eq_iff (key y) j,
    text_eq_iff (key x) j,
    find-insert j x ys,
  )

  find-cons :
      (j : Text) (x : A) (xs ys : List A)
      → find key j xs ≡ find key j ys
      → (if text_eq (key x) j then some x else find key j xs) ≡ find key j (x ∷ ys)
  unfolding find
  find-cons j x xs ys h = rw h

  pub find-sort :
      (j : Text) (xs : List A) → Distinct key xs → find key j (sort key xs) ≡ find key j xs
  unfolding sort
  find-sort j [] d = refl
  find-sort j (x ∷ xs) d =
      find-insert j x (sort key xs) (find-sort (key x) xs d.1 ∙ d.0)
      ∙ find-cons j x (sort key xs) xs (find-sort j xs d.1)

  Distinct-insert :
      (x : A) (xs : List A)
      → find key (key x) xs ≡ none
      → Distinct key xs
      → Distinct key (insert key x xs)
  unfolding insert
  Distinct-insert x [] n d = (n, tt)
  Distinct-insert x (y ∷ ys) n d =
      let n' : find key (key x) ys ≡ none = unfold find in ground arith in
      elim (Bool-cases (text_ltb (key y) (key x))) [
        | inl t ↦ rw t (
          find-insert (key y) x ys n'
              ∙ (unfold find in
                  ground (arith, d.0, text_eq_iff (key y) (key x), text_eq_iff (key x) (key y))),
          Distinct-insert x ys n' d.1,
        )
        | inr f ↦ rw f (n, d)
      ]

  pub Distinct-sort : (xs : List A) → Distinct key xs → Distinct key (sort key xs)
  unfolding sort
  Distinct-sort [] d = tt
  Distinct-sort (x ∷ xs) d =
      Distinct-insert x (sort key xs) (find-sort (key x) xs d.1 ∙ d.0) (Distinct-sort xs d.1)

  Below-trans : (j k : Text) (xs : List A) → text_ltb j k ≡ true → Below key k xs → Below key j xs
  Below-trans j k [] h b = tt
  Below-trans j k (x ∷ xs) h b = (text_ltb_trans j k (key x) h b.0, Below-trans j k xs h b.1)

  Below-insert :
      (k : Text) (x : A) (xs : List A)
      → text_ltb k (key x) ≡ true
      → Below key k xs
      → Below key k (insert key x xs)
  unfolding insert
  Below-insert k x [] h b = (h, tt)
  Below-insert k x (y ∷ ys) h b = elim (Bool-cases (text_ltb (key y) (key x))) [
    | inl t ↦ rw t (b.0, Below-insert k x ys h b.1)
    | inr f ↦ rw f (h, b)
  ]

  IsSorted-insert :
      (x : A) (xs : List A)
      → find key (key x) xs ≡ none
      → IsSorted key xs
      → IsSorted key (insert key x xs)
  unfolding insert
  IsSorted-insert x [] n s = (tt, tt)
  IsSorted-insert x (y ∷ ys) n s =
      let n' : find key (key x) ys ≡ none = unfold find in ground arith in
      elim (Bool-cases (text_ltb (key y) (key x))) [
        | inl t ↦ rw t (Below-insert (key y) x ys t s.0, IsSorted-insert x ys n' s.1)
        | inr f ↦
            let lt : text_ltb (key x) (key y) ≡ true =
              unfold find in
              ground (arith, text_ltb_total (key x) (key y), text_eq_iff (key y) (key x)) in
            rw f ((lt, Below-trans (key x) (key y) ys lt s.0), s)
      ]

  pub sort-IsSorted : (xs : List A) → Distinct key xs → IsSorted key (sort key xs)
  unfolding sort
  sort-IsSorted [] d = tt
  sort-IsSorted (x ∷ xs) d =
      IsSorted-insert x (sort key xs) (find-sort (key x) xs d.1 ∙ d.0) (sort-IsSorted xs d.1)

  Below-find : (k : Text) (xs : List A) → Below key k xs → find key k xs ≡ none
  unfolding find
  Below-find k [] b = refl
  Below-find k (x ∷ xs) b =
      ground (arith, text_eq_iff (key x) k, text_ltb_irrefl k, Below-find k xs b.1)

  find_of_Below :
      (j k : Text) (xs : List A)
      → Below key k xs
      → (text_eq j k ≡ true) ⊎ (text_ltb j k ≡ true)
      → find key j xs ≡ none
  find_of_Below j k xs b (inl e) = rw ((text_eq_iff j k).0 e) (Below-find k xs b)
  find_of_Below j k xs b (inr l) = Below-find j xs (Below-trans j k xs l b)

  heads_le :
      (x y : A) (xs ys : List A)
      → Below key (key y) ys
      → find key (key x) (y ∷ ys) ≡ some x
      → text_ltb (key x) (key y) ≡ false
  heads_le x y xs ys b e = elim (Bool-cases (text_ltb (key x) (key y))) [
    | inl t ↦
        let gone : find key (key x) ys ≡ none = find_of_Below (key x) (key y) ys b (inr t) in
        unfold find in ground (arith, text_eq_iff (key y) (key x), text_ltb_irrefl (key x))
    | inr f ↦ f
  ]

  head_agree : (x y : A) (ys : List A) → key x ≡ key y → find key (key x) (y ∷ ys) ≡ some x → x ≡ y
  unfolding find
  head_agree x y ys e h = ground (arith, text_eq_iff (key y) (key x))

  tails_agree :
      (x y : A) (xs ys : List A) (j : Text)
      → key x ≡ key y
      → find key j (x ∷ xs) ≡ find key j (y ∷ ys)
      → find key (key y) xs ≡ none
      → find key (key y) ys ≡ none
      → find key j xs ≡ find key j ys
  unfolding find
  tails_agree x y xs ys j e h m n = elim (Bool-cases (text_eq (key y) j)) [
    | inl t ↦ let q : key y ≡ j = (text_eq_iff (key y) j).0 t in rw (← q) (m ∙ sym n)
    | inr f ↦ ground (arith, text_eq_iff (key x) j, text_eq_iff (key y) j)
  ]

  -- A sorted list is determined by what is found in it.
  pub IsSorted-ext :
      (xs ys : List A)
      → IsSorted key xs
      → IsSorted key ys
      → ((j : Text) → find key j xs ≡ find key j ys)
      → xs ≡ ys
  IsSorted-ext [] [] s t h = refl
  IsSorted-ext [] (y ∷ ys) s t h =
      unfold find in ground (arith, h (key y), text_eq_iff (key y) (key y))
  IsSorted-ext (x ∷ xs) [] s t h =
      unfold find in ground (arith, h (key x), text_eq_iff (key x) (key x))
  IsSorted-ext (x ∷ xs) (y ∷ ys) s t h =
      let hx : find key (key x) (y ∷ ys) ≡ some x =
        unfold find in ground (arith, h (key x), text_eq_iff (key x) (key x)) in
      let hy : find key (key y) (x ∷ xs) ≡ some y =
        unfold find in ground (arith, h (key y), text_eq_iff (key y) (key y)) in
      let same : key x ≡ key y =
        text_ltb_total (key x) (key y) (heads_le x y xs ys t.0 hx) (heads_le y x ys xs s.0 hy) in
      let rest : (j : Text) → find key j xs ≡ find key j ys = λ j.
        tails_agree x y xs ys j same (h j) (rw same at (Below-find (key x) xs s.0))
          (Below-find (key y) ys t.0) in
      ap₂ (λ a l. a ∷ l) (head_agree x y ys same hx) (IsSorted-ext xs ys s.1 t.1 rest)

-- What holds of every value of a map holds after each operation.
module _ {ℓ κ} {A : Type ℓ} (key : A → Text) (P : A → Type κ) where
  pub All-put : (x : A) (xs : List A) → P x → All P xs → All P (put key x xs)
  unfolding put
  All-put x [] h a = (h, tt)
  All-put x (y ∷ ys) h a = elim (Bool-cases (text_eq (key y) (key x))) [
    | inl t ↦ rw t (h, a.1)
    | inr f ↦ rw f (a.0, All-put x ys h a.1)
  ]

  pub All-remove : (k : Text) (xs : List A) → All P xs → All P (remove key k xs)
  unfolding remove
  All-remove k [] a = tt
  All-remove k (y ∷ ys) a = elim (Bool-cases (text_eq (key y) k)) [
    | inl t ↦ rw t (All-remove k ys a.1)
    | inr f ↦ rw f (a.0, All-remove k ys a.1)
  ]

  All-insert : (x : A) (xs : List A) → P x → All P xs → All P (insert key x xs)
  unfolding insert
  All-insert x [] h a = (h, tt)
  All-insert x (y ∷ ys) h a = elim (Bool-cases (text_ltb (key y) (key x))) [
    | inl t ↦ rw t (a.0, All-insert x ys h a.1)
    | inr f ↦ rw f (h, a)
  ]

  pub All-sort : (xs : List A) → All P xs → All P (sort key xs)
  unfolding sort
  All-sort [] a = tt
  All-sort (x ∷ xs) a = All-insert x (sort key xs) a.0 (All-sort xs a.1)

module _ {ℓ} {A : Type ℓ} (key : A → Text) where
  pub Distinct-put_all : (xs m : List A) → Distinct key m → Distinct key (put_all key xs m)
  unfolding put_all
  Distinct-put_all [] m d = d
  Distinct-put_all (x ∷ xs) m d = Distinct-put_all xs (put key x m) (Distinct-put key x m d)

  -- Distinct keys: what the loop puts in is what a lookup finds.
  pub find-put_all :
      (j : Text) (xs m : List A)
      → Distinct key xs
      → find key j (put_all key xs m)
        ≡ (if is_some (find key j xs) then find key j xs else find key j m)
  unfolding put_all
  find-put_all j [] m d = unfold find in refl
  find-put_all j (x ∷ xs) m d = find-put_all j xs (put key x m) d.1 ∙ join_lookups j x xs m d.0
    where
      join_lookups :
          (j : Text) (x : A) (xs m : List A)
          → find key (key x) xs ≡ none
          → (if is_some (find key j xs) then find key j xs else find key j (put key x m))
            ≡ (if is_some (find key j (x ∷ xs)) then find key j (x ∷ xs) else find key j m)
      join_lookups j x xs m n =
          unfold find in ground (arith, find-put key j x m, text_eq_iff (key x) j)

  pub All-put_all {κ} :
      (P : A → Type κ) (xs m : List A) → All P xs → All P m → All P (put_all key xs m)
  unfolding put_all
  All-put_all P [] m a b = b
  All-put_all P (x ∷ xs) m a b = All-put_all P xs (put key x m) a.1 (All-put key P x m a.0 b)
