-- ===== src/Prelude/Lists.antt =====
-- Lists of rows: searching, rewriting the rows that fit, and native lengths.
use x.{}
use Prim.Native.Nat.{ℕ, zero, suc}
use mathlib.Core.Bool.{Bool, true, false, ◌&&◌, ◌||◌}
use mathlib.Core.Option.{Option, none, some}
use mathlib.Core.List.{List, [], ◌∷◌}
use tuixiu.Prelude.Tests.{leb, if◌then◌else◌, ◌<|>◌}

module _ {ℓ} {A : Type ℓ} where
  abbrev pub length : List A → ℕ
  length [] = 0
  length (x ∷ xs) = suc (length xs)

  abbrev pub get_elem? : List A → ℕ → Option A
  get_elem? [] i = none
  get_elem? (x ∷ xs) zero = some x
  get_elem? (x ∷ xs) (suc i) = get_elem? xs i

  abbrev pub take : ℕ → List A → List A
  take zero xs = []
  take (suc n) [] = []
  take (suc n) (x ∷ xs) = x ∷ take n xs

  -- `xs.find(p)`
  unfoldable pub find : (A → Bool) → List A → Option A
  find p [] = none
  find p (x ∷ xs) = if p x then some x else find p xs

  -- `xs.filter(p)`
  unfoldable pub select : (A → Bool) → List A → List A
  select p [] = []
  select p (x ∷ xs) = if p x then x ∷ select p xs else select p xs

  -- rewrite the rows that pass the test, and leave the others
  unfoldable pub modify : (A → Bool) → (A → A) → List A → List A
  modify p f [] = []
  modify p f (x ∷ xs) = (if p x then f x else x) ∷ modify p f xs

  unfoldable pub any : (A → Bool) → List A → Bool
  any p [] = false
  any p (x ∷ xs) = p x || any p xs

  unfoldable pub all : (A → Bool) → List A → Bool
  all p [] = true
  all p (x ∷ xs) = p x && all p xs

  abbrev pub head_or_none : List A → Option A
  head_or_none [] = none
  head_or_none (x ∷ xs) = some x

  abbrev pub All {κ} : (A → Type κ) → List A → Type κ
  All P [] = Unit
  All P (x ∷ xs) = P x × All P xs

  -- `orderBy` of a numeric column, ascending; rows with equal values keep their order
  unfoldable pub insert_by : (A → ℕ) → A → List A → List A
  insert_by k x [] = x ∷ []
  insert_by k x (y ∷ ys) = if leb (k x) (k y) then x ∷ y ∷ ys else y ∷ insert_by k x ys

  unfoldable pub order_by : (A → ℕ) → List A → List A
  unfolding insert_by
  order_by k [] = []
  order_by k (x ∷ xs) = insert_by k x (order_by k xs)

  -- the same, descending
  unfoldable pub insert_newest : (A → ℕ) → A → List A → List A
  insert_newest k x [] = x ∷ []
  insert_newest k x (y ∷ ys) = if leb (k y) (k x) then x ∷ y ∷ ys else y ∷ insert_newest k x ys

  unfoldable pub newest_first : (A → ℕ) → List A → List A
  unfolding insert_newest
  newest_first k [] = []
  newest_first k (x ∷ xs) = insert_newest k x (newest_first k xs)

  unfoldable pub last_or_none : List A → Option A
  last_or_none [] = none
  last_or_none (x ∷ xs) = last_or_none xs <|> some x
