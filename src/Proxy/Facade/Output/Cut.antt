-- ===== src/Proxy/Facade/Output/Cut.antt =====
-- The text is cut at the first unit from which on it is within the limit.
use Prim.Native.Nat.{◌/◌}
use tuixiu.Prelude.{
  ℕ, zero, suc, ◌+◌, ◌≤◌, ◌<◌, some, true, false, List, [], ◌∷◌, arith, leb, ltb, eqb, ◌||◌, length,
  refl, ◌≡◌, inl, inr, Bool-cases, ◌&&◌, and_true, sym, eqb_iff, subst,
}
use tuixiu.Proxy.Facade.Output.{
  byte_length, drop, bisect, shorten, trim_to_byte_limit, unit_bytes, is_high, is_low,
}

pub unit_bytes_bounds : (u : ℕ) → (0 < unit_bytes u) × (unit_bytes u ≤ 3)
unit_bytes_bounds u = ground arith

low_not_high : (u : ℕ) → is_low u ≡ true → is_high u ≡ false
low_not_high u h = ground arith

-- A text that begins with the second half of a pair.
byte_length-low : (v : ℕ) (s : List ℕ) → is_low v ≡ true → byte_length (v ∷ s) ≤ 3 + byte_length s
unfolding byte_length
byte_length-low v [] h = omega (arith, unit_bytes_bounds v)
byte_length-low v (w ∷ s) h = rw (low_not_high v h) (omega (arith, unit_bytes_bounds v))

-- No text gets longer by leaving out its first unit.
pub byte_length-tail : (u : ℕ) (s : List ℕ) → byte_length s ≤ byte_length (u ∷ s)
unfolding byte_length
byte_length-tail u [] = omega arith
byte_length-tail u (v ∷ s) = elim (Bool-cases (is_high u && is_low v)) [
  | inl pair ↦
      rw (pair) (omega (arith, byte_length-low v s (and_true (is_high u) (is_low v) pair).1))
  | inr single ↦ rw (single) (omega arith)
]

pub byte_length-cons_pos : (u : ℕ) (s : List ℕ) → 0 < byte_length (u ∷ s)
unfolding byte_length
byte_length-cons_pos u [] = omega (arith, unit_bytes_bounds u)
byte_length-cons_pos u (v ∷ s) = elim (Bool-cases (is_high u && is_low v)) [
  | inl pair ↦ rw pair (omega arith)
  | inr single ↦ rw single (omega (arith, unit_bytes_bounds u))
]

-- Nor by leaving out more.
pub byte_length-drop :
    (n m : ℕ) (s : List ℕ) → n ≤ m → byte_length (drop m s) ≤ byte_length (drop n s)
unfolding drop
byte_length-drop zero zero s h = omega arith
byte_length-drop zero (suc m) [] h = omega arith
byte_length-drop zero (suc m) (u ∷ s) h =
    omega (arith, byte_length-drop zero m s (omega arith), byte_length-tail u s)
byte_length-drop (suc n) zero s h = absurd (omega arith)
byte_length-drop (suc n) (suc m) [] h = omega arith
byte_length-drop (suc n) (suc m) (u ∷ s) h = byte_length-drop n m s (omega arith)

drop-length : (s : List ℕ) → drop (length s) s ≡ []
unfolding drop
drop-length [] = refl
drop-length (u ∷ s) = drop-length s

pub drop-zero : (s : List ℕ) → drop 0 s ≡ s
unfolding drop
drop-zero s = refl

-- Every earlier cut leaves too much.
abbrev pub TooLong : ℕ → List ℕ → ℕ → Type 0
TooLong limit s k = (j : ℕ) → j < k → limit < byte_length (drop j s)

-- `k` is the first cut that leaves a text within the limit.
pub record IsCut (limit : ℕ) (s : List ℕ) (k : ℕ) : Type 0 where
  pub within : byte_length (drop k s) ≤ limit
  pub first : TooLong limit s k
  pub in_text : k ≤ length s

-- With more fuel than units between the bounds, the bisection ends at the cut.
bisect-IsCut :
    (fuel limit : ℕ) (s : List ℕ) (low high : ℕ)
    → low ≤ high
    → high < fuel + low
    → high ≤ length s
    → byte_length (drop high s) ≤ limit
    → TooLong limit s low
    → (k : ℕ) × (bisect fuel limit s low high ≡ some k) × IsCut limit s k
unfolding bisect
bisect-IsCut zero limit s low high le enough len fits long = absurd (omega arith)
bisect-IsCut (suc fuel) limit s low high le enough len fits long =
    elim (Bool-cases (ltb low high)) [
      | inr ended ↦ (
        low,
        rw (ended, bisect) refl,
        record { within = rw (eq_of ended) fits; first = long; in_text = omega arith },
      )
      | inl more ↦
          let mid = (low + high) / 2 in
          elim (Bool-cases (ltb limit (byte_length (drop mid s)))) [
            | inl over ↦
                let (k, e, cut) =
                  bisect-IsCut fuel limit s (mid + 1) high (ground arith) (ground arith) len fits
                    (λ j p. ground (arith, byte_length-drop j mid s (omega arith))) in
                (k, rw (more, over, bisect) e, cut)
            | inr under ↦
                let (k, e, cut) =
                  bisect-IsCut fuel limit s low mid (ground arith) (ground arith) (ground arith)
                    (ground arith) long in
                (k, rw (more, under, bisect) e, cut)
          ]
    ]
  where
    eq_of : ltb low high ≡ false → low ≡ high
    eq_of e = ground arith

-- A text within the limit is not shortened.
shorten-within : (limit : ℕ) (s : List ℕ) → byte_length s ≤ limit → shorten limit s ≡ s
unfolding shorten
shorten-within limit [] h = refl
shorten-within limit (u ∷ s) h =
    let off : ltb limit (byte_length (u ∷ s)) ≡ false = ground arith in rw off refl

-- There is one such cut.
pub IsCut-unique : {limit : ℕ} {s : List ℕ} {k j : ℕ} → IsCut limit s k → IsCut limit s j → k ≡ j
IsCut-unique {limit} {s} {k} {j} a b =
    let not_before : ¬ (k < j) = λ h. absurd (omega (arith, b.first k h, a.within)) in
    let not_after : ¬ (j < k) = λ h. absurd (omega (arith, a.first j h, b.within)) in omega arith

drop-cons_pos : (j : ℕ) (s : List ℕ) → j < length s → 0 < byte_length (drop j s)
unfolding drop
drop-cons_pos j [] h = absurd (omega arith)
drop-cons_pos zero (u ∷ s) h = byte_length-cons_pos u s
drop-cons_pos (suc j) (u ∷ s) h = drop-cons_pos j s (omega arith)

end_within : (limit : ℕ) (s : List ℕ) → byte_length (drop (length s) s) ≤ limit
unfolding byte_length
end_within limit s = rw (drop-length s) (omega arith)

nothing-IsCut : (s : List ℕ) → IsCut 0 s (length s)
nothing-IsCut s = record {
  within = end_within 0 s;
  first = λ j h. drop-cons_pos j s h;
  in_text = omega arith;
}

pub whole-IsCut : (limit : ℕ) (s : List ℕ) → byte_length s ≤ limit → IsCut limit s 0
whole-IsCut limit s h = record {
  within = rw (drop-zero s) h;
  first = λ j p. absurd (omega arith);
  in_text = omega arith;
}

-- Trimming a text ends within its fuel, at the first unit from which on the text is within the limit
-- of bytes, and tells that it is truncated exactly where the limit is 0 or the text has more bytes.
pub trim_to_byte_limit-IsCut :
    (value : List ℕ) (limit : ℕ)
    → (k : ℕ) × (trim_to_byte_limit value limit
        ≡ some (record {
          value = drop k value;
          truncated = eqb limit 0 || ltb limit (byte_length value);
        }))
      × IsCut limit value k
unfolding trim_to_byte_limit
trim_to_byte_limit-IsCut value limit = elim (Bool-cases (eqb limit 0)) [
  | inl none_left ↦
      let none : limit ≡ 0 = (eqb_iff limit 0).0 none_left in
      (
        length value,
        rw (none_left, drop-length value) refl,
        subst (λ l. IsCut l value (length value)) (sym none) (nothing-IsCut value),
      )
  | inr some_left ↦ elim (Bool-cases (leb (byte_length value) limit)) [
    | inl fits ↦
        let short : ltb limit (byte_length value) ≡ false = ground arith in
        (
          0,
          rw (some_left, fits, short, drop-zero value) refl,
          whole-IsCut limit value (ground arith),
        )
    | inr over ↦
        let long : ltb limit (byte_length value) ≡ true = ground arith in
        let (k, found, cut) =
          bisect-IsCut (suc (length value)) limit value 0 (length value) (omega arith) (omega arith)
            (omega arith) (end_within limit value) (λ j p. absurd (omega arith)) in
        (
          k,
          rw (some_left, over, found, long, shorten-within limit (drop k value) cut.within) refl,
          cut,
        )
  ]
]
