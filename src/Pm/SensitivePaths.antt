-- ===== src/Pm/SensitivePaths.antt =====
-- backend/src/modules/pm/pmSensitivePaths.ts: which paths the patterns of a project's policy hold for
-- sensitive. Texts are lists of UTF-16 code units here, on which JavaScript's expressions work.
pub mod Matching
pub mod Globs
pub mod Hits
use Prim.Native.Char.{code}
use Prim.Native.Nat.{◌/◌, ◌%◌}
use Prim.Native.String
use tuixiu.Prelude.{
  ℕ, zero, suc, ◌+◌, ◌-◌, String, Option, none, some, Bool, true, false, List, [], ◌∷◌, ◌++◌, ◌&&◌,
  ◌||◌, not, any, map, eqb, leb, begins_with, is_empty, trim, if◌then◌else◌, ◌==◌, select,
}

unfoldable pub units : String → List ℕ
units String.[] = []
units (String.◌∷◌ c s) =
    let rest = units s in
    let above = code c - 65536 in
    if leb 65536 (code c)
    then (55296 + above / 1024) ∷ (56320 + above % 1024) ∷ rest
    else code c ∷ rest

abbrev pub to_posix_unit : ℕ → ℕ
to_posix_unit c = if eqb c 92 then 47 else c

-- `p.replace(/\\/g, "/")`
unfoldable pub to_posix_path : List ℕ → List ℕ
to_posix_path [] = []
to_posix_path (c ∷ s) = to_posix_unit c ∷ to_posix_path s

-- `. + ^ $ { } ( ) | [ ]` and the backslash
abbrev pub specials : List ℕ
specials = 46 ∷ 43 ∷ 94 ∷ 36 ∷ 123 ∷ 125 ∷ 40 ∷ 41 ∷ 124 ∷ 91 ∷ 93 ∷ 92 ∷ []

abbrev pub is_special : ℕ → Bool
is_special c = any (eqb c) specials

-- `raw.replace(/[.+^${}()|[\]\\]/g, "\\$&")`
unfoldable pub escaped : List ℕ → List ℕ
escaped [] = []
escaped (c ∷ s) = if is_special c then 92 ∷ c ∷ escaped s else c ∷ escaped s

-- `s.replace(needle, by)` with the flag `g`, for a needle of `n + 1` units. The first number counts
-- the units of an occurrence that are still to be left out.
unfoldable pub replace_all : (needle : List ℕ) (n : ℕ) (by : List ℕ) → ℕ → List ℕ → List ℕ
replace_all needle n by skip [] = []
replace_all needle n by (suc skip) (c ∷ s) = replace_all needle n by skip s
replace_all needle n by zero (c ∷ s) =
    if begins_with (c ∷ s) needle
    then by ++ replace_all needle n by n s
    else c ∷ replace_all needle n by zero s

-- `§§DOUBLESTAR§§`
abbrev pub placeholder : List ℕ
placeholder = 167 ∷ 167 ∷ 68 ∷ 79 ∷ 85 ∷ 66 ∷ 76 ∷ 69 ∷ 83 ∷ 84 ∷ 65 ∷ 82 ∷ 167 ∷ 167 ∷ []

-- `[^/]*`
abbrev pub single_star : List ℕ
single_star = 91 ∷ 94 ∷ 47 ∷ 93 ∷ 42 ∷ []

-- `.*`
abbrev pub double_star : List ℕ
double_star = 46 ∷ 42 ∷ []

abbrev pub with_double_star : List ℕ → List ℕ
with_double_star s = replace_all (42 ∷ 42 ∷ []) 1 placeholder 0 s

abbrev pub with_single_star : List ℕ → List ℕ
with_single_star s = replace_all (42 ∷ []) 0 single_star 0 s

abbrev pub without_placeholder : List ℕ → List ℕ
without_placeholder s = replace_all placeholder 13 double_star 0 s

-- the text between `^` and `$`
abbrev pub expression_text : List ℕ → List ℕ
expression_text raw = without_placeholder (with_single_star (with_double_star (escaped raw)))

-- The expressions that such a text can be, as ECMAScript reads them.
pub data Atom : Type 0 where
  one_unit : ℕ → Atom
  optional_unit : ℕ → Atom
  in_segment : Atom
  anything : Atom

-- the signs of the text
pub data Sign : Type 0 where
  plain : ℕ → Sign
  question : Sign
  star : Atom → Sign

unfoldable pub signs : ℕ → List ℕ → List Sign
signs skip [] = []
signs (suc skip) (c ∷ s) = signs skip s
signs zero (c ∷ s) =
    if begins_with (c ∷ s) single_star
    then star in_segment ∷ signs 4 s
    else if begins_with (c ∷ s) double_star
    then star anything ∷ signs 1 s
    else if eqb c 63
    then question ∷ signs 0 s
    else if eqb c 92
    then elim s [ [] ↦ [] | d ∷ _ ↦ plain d ∷ signs 1 s ]
    else plain c ∷ signs 0 s

-- What a question mark would do here: fail, make the unit before it optional, or make the
-- repetition before it a lazy one, which holds of the same texts.
pub data Before : Type 0 where
  nothing : Before
  a_unit : ℕ → Before
  a_repetition : Atom → Before
  complete : Atom → Before

abbrev emitted : Before → List Atom → List Atom
emitted nothing atoms = atoms
emitted (a_unit c) atoms = one_unit c ∷ atoms
emitted (a_repetition a) atoms = a ∷ atoms
emitted (complete a) atoms = a ∷ atoms

abbrev then_emit : Before → Option (List Atom) → Option (List Atom)
then_emit b none = none
then_emit b (some atoms) = some (emitted b atoms)

-- `none` is the SyntaxError of a question mark with nothing to repeat.
unfoldable pub atoms_of : Before → List Sign → Option (List Atom)
atoms_of b [] = some (emitted b [])
atoms_of (a_unit c) (question ∷ rest) = atoms_of (a_repetition (optional_unit c)) rest
atoms_of (a_repetition a) (question ∷ rest) = atoms_of (complete a) rest
atoms_of nothing (question ∷ rest) = none
atoms_of (complete a) (question ∷ rest) = none
atoms_of b (plain c ∷ rest) = then_emit b (atoms_of (a_unit c) rest)
atoms_of b (star a ∷ rest) = then_emit b (atoms_of (a_repetition a) rest)

-- The callers trim the pattern, and the trimming here changes nothing then.
unfoldable pub glob_to_reg_exp : String → Option (List Atom)
glob_to_reg_exp pattern =
    atoms_of nothing (signs 0 (expression_text (to_posix_path (units (trim pattern)))))

-- what `.` does not match
abbrev pub is_line_terminator : ℕ → Bool
is_line_terminator c = eqb c 10 || eqb c 13 || eqb c 8232 || eqb c 8233

-- a repetition of units that pass, in front of what the rest of the expression matches
unfoldable pub repeated : (ℕ → Bool) → (List ℕ → Bool) → List ℕ → Bool
repeated passes rest [] = rest []
repeated passes rest (c ∷ s) = rest (c ∷ s) || (passes c && repeated passes rest s)

-- `re.test(s)`, of the expression between its anchors
unfoldable pub test : List Atom → List ℕ → Bool
unfolding repeated
test [] [] = true
test [] (c ∷ s) = false
test (one_unit d ∷ atoms) [] = false
test (one_unit d ∷ atoms) (c ∷ s) = eqb c d && test atoms s
test (optional_unit d ∷ atoms) [] = test atoms []
test (optional_unit d ∷ atoms) (c ∷ s) = (eqb c d && test atoms s) || test atoms (c ∷ s)
test (in_segment ∷ atoms) s = repeated (λ c. not (eqb c 47)) (test atoms) s
test (anything ∷ atoms) s = repeated (λ c. not (is_line_terminator c)) (test atoms) s

-- The patterns that match, or `none` where one of them is no expression.
unfoldable pub match_any_glob : String → List String → Option (List String)
match_any_glob path [] = some []
match_any_glob path (raw ∷ rest) =
    let pat = trim raw in
    let later = match_any_glob path rest in
    if is_empty pat then later else elim (glob_to_reg_exp pat) [
      | none ↦ none
      | some re ↦ elim later [
        | none ↦ none
        | some matched ↦
            if test re (to_posix_path (units path)) then some (pat ∷ matched) else some matched
      ]
    ]

pub record SensitiveHit : Type 0 where
  pub matched_files : List String
  pub patterns : List String

-- `set.add(p)`, in the order of a Set
abbrev pub add_pattern : String → List String → List String
add_pattern p seen = if any (λ q. q == p) seen then seen else seen ++ p ∷ []

unfoldable pub add_patterns : List String → List String → List String
add_patterns seen [] = seen
add_patterns seen (p ∷ rest) = add_patterns (add_pattern p seen) rest

-- the loop over the paths, on the files and the patterns found so far
unfoldable pub collect : List String → List String → SensitiveHit → Option SensitiveHit
collect pats [] hit = some hit
collect pats (raw ∷ rest) hit =
    let p = trim raw in
    if is_empty p then collect pats rest hit else elim (match_any_glob p pats) [
      | none ↦ none
      | some [] ↦ collect pats rest hit
      | some (m ∷ more) ↦ collect pats rest (record {
        matched_files = hit.matched_files ++ p ∷ [];
        patterns = add_patterns hit.patterns (m ∷ more);
      })
    ]

-- `if (!matchedFiles.length) return null`
abbrev pub if_any_files : SensitiveHit → Option SensitiveHit
if_any_files hit = elim hit.matched_files [ [] ↦ none | _ ∷ _ ↦ some hit ]

-- `none` is the SyntaxError of a pattern, `some none` the result `null`.
unfoldable pub compute_sensitive_hit_from_paths :
    List String → List String → Option (Option SensitiveHit)
compute_sensitive_hit_from_paths paths [] = some none
compute_sensitive_hit_from_paths paths (pat ∷ pats) =
    elim (collect (pat ∷ pats) paths (record { matched_files = []; patterns = [] })) [
      | none ↦ none
      | some hit ↦ some (if_any_files hit)
    ]

-- The paths of files, less the empty ones.
unfoldable pub compute_sensitive_hit_from_files :
    List String → List String → Option (Option SensitiveHit)
compute_sensitive_hit_from_files files patterns =
    compute_sensitive_hit_from_paths (select (λ p. not (is_empty p)) files) patterns
