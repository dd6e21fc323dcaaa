-- ===== src/Prelude/RowLaws.antt =====
-- Laws of searching and rewriting rows that are told apart by a text.
use Prim.Native.Nat.{ℕ}
use Prim.Native.String.{String}
use mathlib.Core.Path.{◌≡◌, refl, sym}
use mathlib.Core.Logic.{◌≢◌, inl, inr}
use mathlib.Core.Bool.{Bool, true, false}
use mathlib.Core.Option
use mathlib.Core.Option.{Option, none, some}
use mathlib.Core.List.{List, [], ◌∷◌, ◌++◌, Memᴰ}
use native.Mathlib.Omega.{arith}
use text.Mathlib.Text.{◌==◌}
use text.Mathlib.TextEquality.{eq_iff}
use tuixiu.Prelude.Tests.{if◌then◌else◌, Bool-cases}
use tuixiu.Prelude.Lists.{find, select, modify, insert_by, order_by, All}

module _ {ℓ} {A : Type ℓ} where
  pub modify_of_find-none :
      (p : A → Bool) (f : A → A) (xs : List A) → find p xs ≡ none → modify p f xs ≡ xs
  unfolding find modify
  modify_of_find-none p f [] h = refl
  modify_of_find-none p f (x ∷ xs) h = ground (arith, modify_of_find-none p f xs)

  pub modify-append :
      (p : A → Bool) (f : A → A) (xs ys : List A)
      → modify p f (xs ++ ys) ≡ modify p f xs ++ modify p f ys
  unfolding modify
  modify-append p f [] ys = refl
  modify-append p f (x ∷ xs) ys = rw (modify-append p f xs ys)

  -- A row that is added behind the others is found where none of them fits.
  pub find-append_none :
      (p : A → Bool) (xs : List A) (y : A)
      → find p xs ≡ none
      → p y ≡ true
      → find p (xs ++ y ∷ []) ≡ some y
  unfolding find
  find-append_none p [] y h q = rw q refl
  find-append_none p (x ∷ xs) y h q = ground (arith, find-append_none p xs y)

  pub find-append_other :
      (p : A → Bool) (xs : List A) (y : A)
      → find p xs ≡ none
      → p y ≡ false
      → find p (xs ++ y ∷ []) ≡ none
  unfolding find
  find-append_other p [] y h q = rw q refl
  find-append_other p (x ∷ xs) y h q = ground (arith, find-append_other p xs y)

  pub find_mem :
      (p : A → Bool) (xs : List A) {x : A} → find p xs ≡ some x → (p x ≡ true) × Memᴰ x xs
  unfolding find
  find_mem p [] h = cc
  find_mem p (y ∷ ys) {x} h = elim (Bool-cases (p y)) [
    | inl e ↦ let same : y ≡ x = ground arith in (rw (← same) e, Memᴰ.head (sym same))
    | inr e ↦ let (q, m) = find_mem p ys {x = x} (ground arith) in (q, Memᴰ.tail m)
  ]

  pub select-modify :
      (q p : A → Bool) (f : A → A) (xs : List A)
      → ((x : A) → q (f x) ≡ q x)
      → select q (modify p f xs) ≡ modify p f (select q xs)
  unfolding select modify
  select-modify q p f [] h = refl
  select-modify q p f (x ∷ xs) h = ground (arith, select-modify q p f xs h, h x)

  insert_by-modify :
      (k : A → ℕ) (p : A → Bool) (f : A → A) (x : A) (xs : List A)
      → ((y : A) → k (f y) ≡ k y)
      → insert_by k (if p x then f x else x) (modify p f xs) ≡ modify p f (insert_by k x xs)
  unfolding insert_by modify
  insert_by-modify k p f x [] h = refl
  insert_by-modify k p f x (y ∷ ys) h = ground (arith, insert_by-modify k p f x ys h, h x, h y)

  pub order_by-modify :
      (k : A → ℕ) (p : A → Bool) (f : A → A) (xs : List A)
      → ((y : A) → k (f y) ≡ k y)
      → order_by k (modify p f xs) ≡ modify p f (order_by k xs)
  unfolding order_by modify
  order_by-modify k p f [] h = refl
  order_by-modify k p f (x ∷ xs) h =
      rw (order_by-modify k p f xs h) (insert_by-modify k p f x (order_by k xs) h)

module _ {ℓ} {A : Type ℓ} (id : A → String) where
  abbrev pub AbsentFrom : String → List A → Type 0
  AbsentFrom i xs = All (λ x. id x ≢ i) xs

  abbrev pub DistinctIds : List A → Type 0
  DistinctIds [] = Unit
  DistinctIds (x ∷ xs) = AbsentFrom (id x) xs × DistinctIds xs

  pub find-modify_self :
      (i : String) (f : A → A) (xs : List A)
      → ((x : A) → id (f x) ≡ id x)
      → find (λ r. id r == i) (modify (λ r. id r == i) f xs)
        ≡ Option.map f (find (λ r. id r == i) xs)
  unfolding find modify
  find-modify_self i f [] h = refl
  find-modify_self i f (x ∷ xs) h = ground (arith, find-modify_self i f xs h, h x)

  pub find-modify_found :
      (i : String) (f : A → A) (xs : List A) {x : A}
      → ((y : A) → id (f y) ≡ id y)
      → find (λ r. id r == i) xs ≡ some x
      → find (λ r. id r == i) (modify (λ r. id r == i) f xs) ≡ some (f x)
  find-modify_found i f xs h e = rw (find-modify_self i f xs h) (rw e refl)

  pub find-modify_ne :
      (i j : String) (f : A → A) (xs : List A)
      → ((x : A) → id (f x) ≡ id x)
      → i ≢ j
      → find (λ r. id r == j) (modify (λ r. id r == i) f xs) ≡ find (λ r. id r == j) xs
  unfolding find modify
  find-modify_ne i j f [] h n = refl
  find-modify_ne i j f (x ∷ xs) h n =
      ground (arith, find-modify_ne i j f xs h n, h x, eq_iff (id x) i, eq_iff (id x) j)

  -- The row that is found by an id has that id.
  pub find_id : (i : String) (xs : List A) {x : A} → find (λ r. id r == i) xs ≡ some x → id x ≡ i
  unfolding find
  find_id i [] h = cc
  find_id i (y ∷ ys) {x} h = ground (arith, find_id i ys {x = x}, eq_iff (id y) i)

  pub find_self :
      (i : String) (xs : List A) {x : A}
      → find (λ r. id r == i) xs ≡ some x
      → find (λ r. id r == id x) xs ≡ some x
  find_self i xs h = rw (find_id i xs h) h

module _ {A : Type 0} (id : A → String) where
  -- A row is found by its id after a rewriting that keeps ids, and rewritten if it fits.
  pub find-modify_any :
      (i : String) (p : A → Bool) (f : A → A) (xs : List A)
      → ((y : A) → id (f y) ≡ id y)
      → find (λ r. id r == i) (modify p f xs)
        ≡ Option.map (λ x. if p x then f x else x) (find (λ r. id r == i) xs)
  unfolding find modify
  find-modify_any i p f [] h = refl
  find-modify_any i p f (x ∷ xs) h = elim (Bool-cases (p x)) [
    | inl fits ↦ elim (Bool-cases (id x == i)) [
      | inl here ↦ rw (fits, h x, here) (rw fits refl)
      | inr there ↦ rw (fits, h x, there) (find-modify_any i p f xs h)
    ]
    | inr other ↦ elim (Bool-cases (id x == i)) [
      | inl here ↦ rw (other, here) (rw other refl)
      | inr there ↦ rw (other, there) (find-modify_any i p f xs h)
    ]
  ]
