-- ===== src/Prelude/RowMiddle.antt =====
-- Rewriting the one row with an id in the middle of a list.
use Prim.Native.String.{String}
use mathlib.Core.Path.{◌≡◌, refl, sym}
use mathlib.Core.Bool.{Bool}
use mathlib.Core.Logic.{◌≢◌}
use mathlib.Core.Option
use mathlib.Core.Option.{Option, none, some}
use mathlib.Core.List.{List, [], ◌∷◌, ◌++◌, map}
use native.Mathlib.Omega.{arith}
use text.Mathlib.Text.{◌==◌}
use text.Mathlib.TextPositions.{eq_refl}
use tuixiu.Prelude.Lists.{modify, last_or_none}
use tuixiu.Prelude.RowLaws.{AbsentFrom, DistinctIds, modify-append}
use tuixiu.Prelude.RowOrder.{All-append_right, modify_absent}

module _ {A : Type 0} (id : A → String) where
  pub DistinctIds-middle :
      (xs : List A) (y : A) (ys : List A)
      → DistinctIds id (xs ++ y ∷ ys)
      → AbsentFrom id (id y) xs × AbsentFrom id (id y) ys
  DistinctIds-middle [] y ys d = (tt, d.0)
  DistinctIds-middle (x ∷ xs) y ys d =
      let here = All-append_right (λ z. id z ≢ id x) xs (y ∷ ys) d.0 in
      let (before, after) = DistinctIds-middle xs y ys d.1 in ((λ e. here.0 (sym e), before), after)

  pub modify_middle :
      (f : A → A) (xs : List A) (y : A) (ys : List A)
      → DistinctIds id (xs ++ y ∷ ys)
      → modify (λ r. id r == id y) f (xs ++ y ∷ ys) ≡ xs ++ f y ∷ ys
  unfolding modify
  modify_middle f xs y ys d =
      let (before, after) = DistinctIds-middle xs y ys d in
      rw (modify-append (λ r. id r == id y) f xs (y ∷ ys)) (
        rw (modify_absent id (id y) f xs before, modify_absent id (id y) f ys after, eq_refl (id y))
          refl)

module _ {A B : Type 0} (k : A → B) where
  pub map-modify :
      (p : A → Bool) (f : A → A) (xs : List A)
      → ((x : A) → k (f x) ≡ k x)
      → map k (modify p f xs) ≡ map k xs
  unfolding modify
  map-modify p f [] h = refl
  map-modify p f (x ∷ xs) h = ground (arith, map-modify p f xs h, h x)

  pub last_or_none-modify :
      (p : A → Bool) (f : A → A) (xs : List A)
      → ((x : A) → k (f x) ≡ k x)
      → Option.map k (last_or_none (modify p f xs)) ≡ Option.map k (last_or_none xs)
  unfolding modify last_or_none
  last_or_none-modify p f [] h = refl
  last_or_none-modify p f (x ∷ xs) h = ground (arith, last_or_none-modify p f xs h, h x)
