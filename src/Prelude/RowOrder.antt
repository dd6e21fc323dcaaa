-- ===== src/Prelude/RowOrder.antt =====
-- Ids stay distinct, and rows stay the table's, through a filter and an ordering.
use Prim.Native.Nat.{ℕ}
use Prim.Native.String.{String}
use mathlib.Core.Path.{◌≡◌, refl, sym}
use mathlib.Core.Logic.{◌≢◌, inl, inr}
use mathlib.Core.Bool.{Bool, true, false}
use mathlib.Core.Option.{some}
use mathlib.Core.List.{List, [], ◌∷◌, ◌++◌}
use native.Mathlib.Omega.{arith}
use text.Mathlib.Text.{◌==◌}
use text.Mathlib.TextEquality.{eq_iff}
use text.Mathlib.TextPositions.{eq_refl}
use tuixiu.Prelude.Tests.{Bool-cases, leb, or_false}
use tuixiu.Prelude.Lists.{find, select, modify, insert_by, order_by, All, any}
use tuixiu.Prelude.RowLaws.{AbsentFrom, DistinctIds}

module _ {ℓ} {A : Type ℓ} where
  module _ {κ} (P : A → Type κ) where
    pub All-select : (p : A → Bool) (xs : List A) → All P xs → All P (select p xs)
    unfolding select
    All-select p [] h = h
    All-select p (x ∷ xs) h = ground (arith, All-select p xs h.1)

    pub All-append : (xs ys : List A) → All P xs → All P ys → All P (xs ++ ys)
    All-append [] ys h k = k
    All-append (x ∷ xs) ys h k = (h.0, All-append xs ys h.1 k)

    pub All-append_right : (xs ys : List A) → All P (xs ++ ys) → All P ys
    All-append_right [] ys h = h
    All-append_right (x ∷ xs) ys h = All-append_right xs ys h.1

    pub All-append_left : (xs ys : List A) → All P (xs ++ ys) → All P xs
    All-append_left [] ys h = tt
    All-append_left (x ∷ xs) ys h = (h.0, All-append_left xs ys h.1)

    All-insert_by : (k : A → ℕ) (x : A) (xs : List A) → P x → All P xs → All P (insert_by k x xs)
    unfolding insert_by
    All-insert_by k x [] p h = (p, tt)
    All-insert_by k x (y ∷ ys) p h = ground (arith, All-insert_by k x ys p h.1)

    pub All-order_by : (k : A → ℕ) (xs : List A) → All P xs → All P (order_by k xs)
    unfolding order_by
    All-order_by k [] h = h
    All-order_by k (x ∷ xs) h = All-insert_by k x (order_by k xs) h.0 (All-order_by k xs h.1)

module _ {ℓ} {A : Type ℓ} where
  -- What a filter lets through passes its test.
  pub select-All : (p : A → Bool) (xs : List A) → All (λ x. p x ≡ true) (select p xs)
  unfolding select
  select-All p [] = tt
  select-All p (x ∷ xs) = ground (arith, select-All p xs)

module _ {A : Type 0} (id : A → String) where
  pub DistinctIds-select :
      (p : A → Bool) (xs : List A) → DistinctIds id xs → DistinctIds id (select p xs)
  unfolding select
  DistinctIds-select p [] h = tt
  DistinctIds-select p (x ∷ xs) h = elim (Bool-cases (p x)) [
    | inl e ↦ rw (e, select) (All-select (λ y. id y ≢ id x) p xs h.0, DistinctIds-select p xs h.1)
    | inr e ↦ rw (e, select) (DistinctIds-select p xs h.1)
  ]

  DistinctIds-insert_by :
      (k : A → ℕ) (x : A) (xs : List A)
      → AbsentFrom id (id x) xs
      → DistinctIds id xs
      → DistinctIds id (insert_by k x xs)
  unfolding insert_by
  DistinctIds-insert_by k x [] a h = (tt, tt)
  DistinctIds-insert_by k x (y ∷ ys) a h = elim (Bool-cases (leb (k x) (k y))) [
    | inl e ↦ rw (e, insert_by) (a, h)
    | inr e ↦
        rw (e, insert_by)
          (
            All-insert_by (λ z. id z ≢ id y) k x ys (λ p. a.0 (sym p)) h.0,
            DistinctIds-insert_by k x ys a.1 h.1,
          )
  ]

  pub DistinctIds-order_by :
      (k : A → ℕ) (xs : List A) → DistinctIds id xs → DistinctIds id (order_by k xs)
  unfolding order_by
  DistinctIds-order_by k [] h = tt
  DistinctIds-order_by k (x ∷ xs) h =
      DistinctIds-insert_by k x (order_by k xs) (All-order_by (λ y. id y ≢ id x) k xs h.0)
        (DistinctIds-order_by k xs h.1)

  All-find_cons :
      (x : A) (ys zs : List A)
      → AbsentFrom id (id x) zs
      → All (λ y. find (λ r. id r == id y) ys ≡ some y) zs
      → All (λ y. find (λ r. id r == id y) (x ∷ ys) ≡ some y) zs
  unfolding find
  All-find_cons x ys [] a h = tt
  All-find_cons x ys (z ∷ zs) a h =
      (ground (arith, eq_iff (id x) (id z)), All-find_cons x ys zs a.1 h.1)

  -- In a table with distinct ids every row is found by its id.
  pub All-find_self :
      (xs : List A) → DistinctIds id xs → All (λ x. find (λ r. id r == id x) xs ≡ some x) xs
  unfolding find
  All-find_self [] h = tt
  All-find_self (x ∷ xs) h = (rw (eq_refl (id x)), All-find_cons x xs xs h.0 (All-find_self xs h.1))

  -- Rewriting the row with an id touches no other row.
  pub modify_absent :
      (i : String) (f : A → A) (xs : List A)
      → AbsentFrom id i xs
      → modify (λ r. id r == i) f xs ≡ xs
  unfolding modify
  modify_absent i f [] a = refl
  modify_absent i f (x ∷ xs) a = ground (arith, modify_absent i f xs a.1, eq_iff (id x) i)

  AbsentFrom-modify :
      (i : String) (p : A → Bool) (f : A → A) (xs : List A)
      → ((x : A) → id (f x) ≡ id x)
      → AbsentFrom id i xs
      → AbsentFrom id i (modify p f xs)
  unfolding modify
  AbsentFrom-modify i p f [] h a = tt
  AbsentFrom-modify i p f (x ∷ xs) h a = ground (arith, h x, AbsentFrom-modify i p f xs h a.1)

  pub DistinctIds-modify :
      (p : A → Bool) (f : A → A) (xs : List A)
      → ((x : A) → id (f x) ≡ id x)
      → DistinctIds id xs
      → DistinctIds id (modify p f xs)
  unfolding modify
  DistinctIds-modify p f [] h d = tt
  DistinctIds-modify p f (x ∷ xs) h d =
      ground (arith, h x, AbsentFrom-modify (id x) p f xs h d.0, DistinctIds-modify p f xs h d.1)

module _ {A : Type 0} (P : A → Type 0) where
  pub All-find : (p : A → Bool) (xs : List A) {y : A} → All P xs → find p xs ≡ some y → P y
  unfolding find
  All-find p [] h e = absurd (cc)
  All-find p (x ∷ xs) {y} h e = elim (Bool-cases (p x)) [
    | inl holds ↦ let same : x ≡ y = ground arith in rw (← same) (h.0)
    | inr other ↦ All-find p xs h.1 (rw other at e)
  ]

pub select-any_none :
    {A : Type 0} (p : A → Bool) (xs : List A) → any p xs ≡ false → select p xs ≡ []
unfolding any select
select-any_none p [] h = refl
select-any_none p (x ∷ xs) h =
    let (off, rest) = or_false (p x) (any p xs) h in rw off (select-any_none p xs rest)

pub any-append :
    {A : Type 0} (p : A → Bool) (xs : List A) (x : A) → p x ≡ true → any p (xs ++ x ∷ []) ≡ true
unfolding any
any-append p [] x h = rw h refl
any-append p (y ∷ ys) x h = elim (Bool-cases (p y)) [
  | inl on ↦ rw on refl
  | inr off ↦ rw off (any-append p ys x h)
]
