-- ===== src/Proxy/Facade/Output/Whole.antt =====
-- Trimming after every chunk keeps what trimming the whole output keeps.
use mathlib.Core.List.{append-nil, append_assoc}
use native.Mathlib.Decide.{dec_lt}
use tuixiu.Prelude.{
  ℕ, zero, suc, ◌+◌, ◌-◌, ◌≤◌, ◌<◌, Option, none, some, true, false, List, [], ◌∷◌, ◌++◌, arith,
  ltb, eqb, ◌||◌, ◌&&◌, length, refl, ◌≡◌, inl, inr, Bool-cases, ◌∙◌, ap, sym, subst,
}
use tuixiu.Proxy.Facade.Output.Cut.{
  IsCut, TooLong, IsCut-unique, unit_bytes_bounds, trim_to_byte_limit-IsCut, whole-IsCut, drop-zero,
}
use tuixiu.Proxy.Facade.Output.{
  byte_length, drop, is_high, is_low, Output, append_output, append_all, output_byte_limit,
  all_chunks, Trimmed, trim_to_byte_limit, empty_output, as_output,
}

byte_length-prefix : (s t : List ℕ) → byte_length s ≤ byte_length (s ++ t)
unfolding byte_length
byte_length-prefix [] t = omega arith
byte_length-prefix (u ∷ []) [] = omega arith
byte_length-prefix (u ∷ []) (v ∷ t) = elim (Bool-cases (is_high u && is_low v)) [
  | inl pair ↦ rw pair (omega (arith, unit_bytes_bounds u))
  | inr single ↦ rw single (omega arith)
]
byte_length-prefix (u ∷ v ∷ s) t = elim (Bool-cases (is_high u && is_low v)) [
  | inl pair ↦ rw pair (omega (arith, byte_length-prefix s t))
  | inr single ↦ rw single (omega (arith, byte_length-prefix (v ∷ s) t))
]

drop-append : (n : ℕ) (s t : List ℕ) → n ≤ length s → drop n (s ++ t) ≡ drop n s ++ t
unfolding drop
drop-append zero s t h = refl
drop-append (suc n) [] t h = absurd (omega arith)
drop-append (suc n) (u ∷ s) t h = drop-append n s t (omega arith)

drop-nil : (n : ℕ) → drop n [] ≡ []
unfolding drop
drop-nil zero = refl
drop-nil (suc n) = refl

drop-drop : (n i : ℕ) (s : List ℕ) → drop i (drop n s) ≡ drop (n + i) s
unfolding drop
drop-drop zero i s = ap (λ (m : ℕ). drop m s) (omega arith)
drop-drop (suc n) i [] = drop-nil i ∙ sym (drop-nil (suc n + i))
drop-drop (suc n) i (u ∷ s) =
    let e : suc n + i ≡ suc (n + i) = omega arith in rw e (drop-drop n i s)

length-append : (s t : List ℕ) → length (s ++ t) ≡ length s + length t
length-append [] t = omega arith
length-append (u ∷ s) t = omega (arith, length-append s t)

length-drop : (n : ℕ) (s : List ℕ) → n ≤ length s → length (drop n s) + n ≡ length s
unfolding drop
length-drop zero s h = omega arith
length-drop (suc n) [] h = absurd (omega arith)
length-drop (suc n) (u ∷ s) h = omega (arith, length-drop n s)

-- A cut of what is left of a text and of what follows is a cut of both.
module _ {limit k : ℕ} (s t : List ℕ) (cut : IsCut limit s k) where
  rest_drop : (i : ℕ) → drop (k + i) (s ++ t) ≡ drop i (drop k s ++ t)
  rest_drop i = sym (drop-drop k i (s ++ t)) ∙ ap (drop i) (drop-append k s t cut.in_text)

  too_long : (i : ℕ) → TooLong limit (drop k s ++ t) i → TooLong limit (s ++ t) (k + i)
  too_long i long j p = elim (dec_lt j k) [
    | yes early ↦
        rw (drop-append j s t (omega (arith, cut.in_text)))
          (omega (arith, byte_length-prefix (drop j s) t, cut.first j early))
    | no late ↦
        let m : ℕ = j - k in
        let split : k + m ≡ j = omega arith in
        subst (λ n. limit < byte_length (drop n (s ++ t))) split
          (rw (rest_drop m) (long m (omega arith)))
  ]

  pub IsCut-append : {i : ℕ} → IsCut limit (drop k s ++ t) i → IsCut limit (s ++ t) (k + i)
  IsCut-append {i} more = record {
    within = rw (rest_drop i) more.within;
    first = too_long i more.first;
    in_text = omega (
      arith,
      more.in_text,
      length-append s t,
      length-append (drop k s) t,
      length-drop k s cut.in_text,
    );
  }

-- the output that keeps the text seen from a cut on
abbrev shown : (limit : ℕ) → (seen : List ℕ) → (cut : ℕ) → Output
shown limit seen cut = record {
  output = drop cut seen;
  truncated = ltb limit (byte_length seen);
  limit = limit;
}

longer :
    (limit : ℕ) (s t : List ℕ)
    → ltb limit (byte_length s) ≡ true
    → ltb limit (byte_length (s ++ t)) ≡ true
longer limit s t h = ground (arith, byte_length-prefix s t)

-- The flag is set when the text seen is first too long.
flag-append :
    {limit k : ℕ} (s t : List ℕ)
    → IsCut limit s k
    → (ltb limit (byte_length s) || ltb limit (byte_length (drop k s ++ t)))
      ≡ ltb limit (byte_length (s ++ t))
flag-append {limit} {k} s t cut = elim (Bool-cases (ltb limit (byte_length s))) [
  | inl over ↦ rw (over, longer limit s t over) refl
  | inr under ↦
      let whole : k ≡ 0 = IsCut-unique cut (whole-IsCut limit s (ground arith)) in
      rw (under, whole, drop-zero s) refl
]

module _ {limit : ℕ} (pos : eqb limit 0 ≡ false) where
  append_output-shown :
      (chunk seen : List ℕ) {k : ℕ}
      → IsCut limit seen k
      → (i : ℕ) × (append_output chunk (shown limit seen k) ≡ some (shown limit (seen ++ chunk) i))
        × IsCut limit (seen ++ chunk) i
  unfolding append_output
  append_output-shown [] seen {k} cut = (k, rw (append-nil seen) refl, rw (append-nil seen) cut)
  append_output-shown (u ∷ chunk) seen {k} cut =
      let (i, trimmed, more) = trim_to_byte_limit-IsCut (drop k seen ++ u ∷ chunk) limit in
      (
        k + i,
        rw
            (
              trimmed,
              pos,
              append_output,
              flag-append seen (u ∷ chunk) cut,
              rest_drop seen (u ∷ chunk) cut i,
            )
            refl,
        IsCut-append seen (u ∷ chunk) cut more,
      )

  append_all-shown :
      (chunks : List (List ℕ)) (seen : List ℕ) {k : ℕ}
      → IsCut limit seen k
      → (i : ℕ) × (append_all chunks (shown limit seen k)
          ≡ some (shown limit (seen ++ all_chunks chunks) i))
        × IsCut limit (seen ++ all_chunks chunks) i
  unfolding append_all
  append_all-shown [] seen {k} cut = (k, rw (append-nil seen) refl, rw (append-nil seen) cut)
  append_all-shown (chunk ∷ rest) seen cut =
      let (j, e, next) = append_output-shown chunk seen cut in
      let (i, e', last) = append_all-shown rest (seen ++ chunk) next in
      let whole = append_assoc seen chunk (all_chunks rest) in
      (
        i,
        rw (e, append_all) (e' ∙ ap (λ s. some (shown limit s i)) whole),
        subst (λ s. IsCut limit s i) whole last,
      )

limit_positive : (requested : Option ℕ) → eqb (output_byte_limit requested) 0 ≡ false
unfolding output_byte_limit
limit_positive none = refl
limit_positive (some n) = ground arith

nil_within : (limit : ℕ) → byte_length [] ≤ limit
unfolding byte_length
nil_within limit = omega arith

start : (limit : ℕ) → shown limit [] 0 ≡ empty_output limit
unfolding byte_length drop
start limit =
    let off : ltb limit 0 ≡ false = ground arith in
    ap (λ b. record { output = []; truncated = b; limit = limit }) off

-- Whatever limit a client asks for, the output of a terminal after any chunks, which is trimmed
-- after each, is that of all the chunks joined and trimmed once, with the same sign of truncation.
pub append_all-trim_to_byte_limit :
    (requested : Option ℕ) (chunks : List (List ℕ))
    → let limit = output_byte_limit requested in
      (trimmed : Trimmed) × (trim_to_byte_limit (all_chunks chunks) limit ≡ some trimmed)
      × (append_all chunks (empty_output limit) ≡ some (as_output limit trimmed))
append_all-trim_to_byte_limit requested chunks =
    let limit = output_byte_limit requested in
    let seen = all_chunks chunks in
    let pos = limit_positive requested in
    let (k, trimmed, cut) = trim_to_byte_limit-IsCut seen limit in
    let (i, appended, cut') =
      append_all-shown pos chunks [] (whole-IsCut limit [] (nil_within limit)) in
    (
      record { value = drop k seen; truncated = ltb limit (byte_length seen) },
      rw (trimmed, pos) refl,
      rw (← start limit, appended, IsCut-unique cut' cut) refl,
    )
