-- ===== src/Prelude/Text.antt =====
-- What the program uses of JavaScript's strings. A text is its code points.
pub mod Trim
use Prim.Native.Nat.{ℕ, ◌+◌}
use Prim.Native.Char.{code}
use Prim.Native.String.{String, [], ◌∷◌, count}
use mathlib.Core.Bool.{Bool, true, false, ◌&&◌, ◌||◌}
use mathlib.Core.List.{List}
use tuixiu.Prelude.Tests.{leb, eqb, if◌then◌else◌}

abbrev pub codes : String → List ℕ
codes [] = List.[]
codes (c ∷ s) = List.◌∷◌ (code c) (codes s)

-- `WhiteSpace` and `LineTerminator` of ECMAScript, which `trim` strips
unfoldable pub is_space : ℕ → Bool
is_space c =
    (leb 9 c && leb c 13)
    || eqb c 32
    || eqb c 160
    || eqb c 5760
    || (leb 8192 c && leb c 8202)
    || eqb c 8232
    || eqb c 8233
    || eqb c 8239
    || eqb c 8287
    || eqb c 12288
    || eqb c 65279

abbrev pub is_empty : String → Bool
is_empty [] = true
is_empty (c ∷ s) = false

trim_start : String → String
trim_start [] = []
trim_start (c ∷ s) = let rest = trim_start s in if is_space (code c) then rest else c ∷ s

trim_end : String → String
trim_end [] = []
trim_end (c ∷ s) =
    let rest = trim_end s in if is_empty rest && is_space (code c) then [] else c ∷ rest

-- `s.trim()`
unfoldable pub trim : String → String
unfolding trim_start trim_end is_space
trim s = trim_end (trim_start s)

-- `toLowerCase` of one code point, as far as it can give an ASCII letter: A to Z and the Kelvin
-- sign. Every other code point has a lower case outside ASCII, or is its own.
unfoldable pub lower : ℕ → ℕ
lower c = if leb 65 c && leb c 90 then c + 32 else if eqb c 8490 then 107 else c

unfoldable pub lower_codes : String → List ℕ
unfolding lower
lower_codes [] = List.[]
lower_codes (c ∷ s) = List.◌∷◌ (lower (code c)) (lower_codes s)

unfoldable pub same : List ℕ → List ℕ → Bool
same List.[] List.[] = true
same (List.◌∷◌ a s) (List.◌∷◌ b t) = eqb a b && same s t
same _ _ = false

-- `s.startsWith(t)`
unfoldable pub begins_with : List ℕ → List ℕ → Bool
begins_with s List.[] = true
begins_with List.[] (List.◌∷◌ b t) = false
begins_with (List.◌∷◌ a s) (List.◌∷◌ b t) = eqb a b && begins_with s t

-- `String(s ?? "").trim().toLowerCase()`
unfoldable pub folded : String → List ℕ
unfolding trim lower_codes
folded s = lower_codes (trim s)

-- `s.slice(-n)`
unfoldable pub last_chars : ℕ → String → String
last_chars n [] = []
last_chars n (c ∷ s) = if leb (count (c ∷ s)) n then c ∷ s else last_chars n s

abbrev pub drop_codes : List ℕ → List ℕ → List ℕ
drop_codes List.[] s = s
drop_codes (List.◌∷◌ a t) List.[] = List.[]
drop_codes (List.◌∷◌ a t) (List.◌∷◌ b s) = drop_codes t s
