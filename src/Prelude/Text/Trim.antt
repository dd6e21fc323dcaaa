-- ===== src/Prelude/Text/Trim.antt =====
-- A trimmed text is its own trimmed text.
use Prim.Native.Char.{Char, code}
use Prim.Native.String.{String, [], ◌∷◌, ◌++◌ as cat}
use text.Mathlib.TextLemmas.{nil-append, cons-append}
use mathlib.Core.Path.{◌≡◌, refl, ap, ◌∙◌}
use mathlib.Core.Logic.{inl, inr, ◌⊎◌}
use mathlib.Core.Bool.{Bool, true, false, ◌&&◌}
use tuixiu.Prelude.Tests.{Bool-cases}
use tuixiu.Prelude.Text.{trim, trim_start, trim_end, is_space, is_empty}

trim_end-trim_end : (s : String) → trim_end (trim_end s) ≡ trim_end s
unfolding trim_end
trim_end-trim_end [] = refl
trim_end-trim_end (c ∷ s) = elim (Bool-cases (is_empty (trim_end s) && is_space (code c))) [
  | inl blank ↦ rw blank refl
  | inr kept ↦ rw kept (rw (trim_end-trim_end s, kept) refl)
]

-- Without the spaces at its start a text is empty or begins with no space.
trim_start-cases :
    (s : String)
    → (trim_start s ≡ [])
      ⊎ ((c : Char) × (r : String) × (trim_start s ≡ c ∷ r) × (is_space (code c) ≡ false))
unfolding trim_start
trim_start-cases [] = inl refl
trim_start-cases (c ∷ s) = elim (Bool-cases (is_space (code c))) [
  | inl space ↦ rw space (trim_start-cases s)
  | inr other ↦ rw other (inr (c, s, refl, other))
]

and_false : (b : Bool) → (b && false) ≡ false
and_false true = refl
and_false false = refl

trim_end-cons :
    (c : Char) (r : String) → is_space (code c) ≡ false → trim_end (c ∷ r) ≡ c ∷ trim_end r
unfolding trim_end
trim_end-cons c r h = rw (h, and_false (is_empty (trim_end r))) refl

trim_start-cons : (c : Char) (r : String) → is_space (code c) ≡ false → trim_start (c ∷ r) ≡ c ∷ r
unfolding trim_start
trim_start-cons c r h = rw h refl

pub trim-trim : (s : String) → trim (trim s) ≡ trim s
unfolding trim
trim-trim s = elim (trim_start-cases s) [
  | inl blank ↦ rw blank refl
  | inr (c, r, e, other) ↦
      rw
        (
          e,
          trim_end-cons c r other,
          trim_start-cons c (trim_end r) other,
          trim_end-cons c (trim_end r) other,
          trim_end-trim_end r,
        )
        refl
]

-- What stands before a text that ends with no space, and ends so itself, is kept.
trim_end-before :
    (c : Char) (s : String) → trim_end s ≡ s → is_space (code c) ≡ false → trim_end (c ∷ s) ≡ c ∷ s
trim_end-before c s h k = trim_end-cons c s k ∙ ap (λ t. c ∷ t) h

trim_end-trim : (s : String) → trim_end (trim s) ≡ trim s
unfolding trim
trim_end-trim s = trim_end-trim_end (trim_start s)

-- No code point of the text is a space.
abbrev pub HasNoSpace : String → Type 0
HasNoSpace [] = Unit
HasNoSpace (c ∷ s) = (is_space (code c) ≡ false) × HasNoSpace s

trim_end-cat : (a s : String) → HasNoSpace a → trim_end s ≡ s → trim_end (cat a s) ≡ cat a s
trim_end-cat [] s h k = rw (nil-append s) k
trim_end-cat (c ∷ a) s h k =
    rw (cons-append c a s) (trim_end-before c (cat a s) (trim_end-cat a s h.1 k) h.0)

-- A text without spaces in front of a trimmed one.
pub trim-cat :
    (c : Char) (a s : String)
    → HasNoSpace (c ∷ a)
    → trim (cat (c ∷ a) (trim s)) ≡ cat (c ∷ a) (trim s)
unfolding trim
trim-cat c a s h = rw (cons-append c a (trim s)) (
    rw (trim_start-cons c (cat a (trim s)) h.0)
      (trim_end-before c (cat a (trim s)) (trim_end-cat a (trim s) h.1 (trim_end-trim s)) h.0))
