-- ===== src/Proxy/Facade/Output.antt =====
-- acp-proxy/src/acpClientFacade.ts: the output of a terminal, of which the end is kept. A text is the
-- list of its UTF-16 code units. The limit is a number of bytes; one below 1 is 0 here.
pub mod Cut
pub mod Whole
use Prim.Native.Nat.{◌/◌}
use tuixiu.Prelude.{
  ℕ, zero, suc, ◌+◌, Option, none, some, Bool, true, false, List, [], ◌∷◌, ◌++◌, if◌then◌else◌, leb,
  ltb, eqb, ◌&&◌, ◌||◌, length,
}

abbrev pub is_high : ℕ → Bool
is_high u = leb 55296 u && ltb u 56320

abbrev pub is_low : ℕ → Bool
is_low u = leb 56320 u && ltb u 57344

-- The bytes of a unit that is no half of a pair. A lone half is written as the replacement character.
abbrev pub unit_bytes : ℕ → ℕ
unit_bytes u = if ltb u 128 then 1 else if ltb u 2048 then 2 else 3

-- `Buffer.byteLength(s, "utf8")`
unfoldable pub byte_length : List ℕ → ℕ
byte_length [] = 0
byte_length (u ∷ []) = unit_bytes u
byte_length (u ∷ v ∷ rest) =
    let pair = 4 + byte_length rest in
    let single = unit_bytes u + byte_length (v ∷ rest) in
    if is_high u && is_low v then pair else single

-- `s.slice(n)`
unfoldable pub drop : ℕ → List ℕ → List ℕ
drop zero s = s
drop (suc n) [] = []
drop (suc n) (u ∷ s) = drop n s

-- The bisection between `low` and `high`; `none` means that the fuel ran out.
unfoldable pub bisect : (fuel limit : ℕ) → (value : List ℕ) → (low high : ℕ) → Option ℕ
bisect zero limit value low high = none
bisect (suc fuel) limit value low high = elim (ltb low high) [
  | false ↦ some low
  | true ↦
      let mid = (low + high) / 2 in
      elim (ltb limit (byte_length (drop mid value))) [
        | true ↦ bisect fuel limit value (mid + 1) high
        | false ↦ bisect fuel limit value low mid
      ]
]

-- `while (trimmed && Buffer.byteLength(trimmed) > limit) trimmed = trimmed.slice(1)`
unfoldable pub shorten : ℕ → List ℕ → List ℕ
shorten limit [] = []
shorten limit (u ∷ s) =
    let rest = shorten limit s in if ltb limit (byte_length (u ∷ s)) then rest else u ∷ s

pub record Trimmed : Type 0 where
  pub value : List ℕ
  pub truncated : Bool

-- The fuel is one more than the units of the text.
unfoldable pub trim_to_byte_limit : List ℕ → ℕ → Option Trimmed
trim_to_byte_limit value limit =
    if eqb limit 0
    then some (record { value = []; truncated = true })
    else if leb (byte_length value) limit
    then some (record { value = value; truncated = false })
    else elim (bisect (suc (length value)) limit value 0 (length value)) [
      | none ↦ none
      | some low ↦ some (record { value = shorten limit (drop low value); truncated = true })
    ]

-- `term.output` and `term.truncated`
pub record Output : Type 0 where
  pub output : List ℕ
  pub truncated : Bool
  pub limit : ℕ

abbrev pub is_nil : List ℕ → Bool
is_nil [] = true
is_nil (u ∷ s) = false

unfoldable pub append_output : List ℕ → Output → Option Output
append_output chunk term =
    if is_nil chunk
    then some term
    else elim (trim_to_byte_limit (term.output ++ chunk) term.limit) [
      | none ↦ none
      | some trimmed ↦
          some (record term {
            output = trimmed.value;
            truncated = term.truncated || trimmed.truncated;
          })
    ]

unfoldable pub append_all : List (List ℕ) → Output → Option Output
append_all [] term = some term
append_all (chunk ∷ rest) term = elim (append_output chunk term) [
  | none ↦ none
  | some next ↦ append_all rest next
]

-- The limit that a client asks for, as a number that is at least 0 and finite, clamped.
unfoldable pub output_byte_limit : Option ℕ → ℕ
output_byte_limit none = 2097152
output_byte_limit (some n) =
    let least = if ltb n 67108864 then n else 67108864 in if ltb least 4096 then 4096 else least

abbrev pub empty_output : ℕ → Output
empty_output limit = record { output = []; truncated = false; limit = limit }

-- the output of a text that is trimmed at once
abbrev pub as_output : ℕ → Trimmed → Output
as_output limit trimmed = record {
  output = trimmed.value;
  truncated = trimmed.truncated;
  limit = limit;
}

abbrev pub all_chunks : List (List ℕ) → List ℕ
all_chunks [] = []
all_chunks (chunk ∷ rest) = chunk ++ all_chunks rest
