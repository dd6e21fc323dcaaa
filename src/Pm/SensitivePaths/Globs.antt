-- ===== src/Pm/SensitivePaths/Globs.antt =====
-- The expression of a pattern against the pattern read as a glob.
use tuixiu.Pm.SensitivePaths.{nothing, glob_to_reg_exp, to_posix_path, units}
use tuixiu.Prelude.{
  [], ◌∷◌, true, false, refl, ◌≡◌, ◌∙◌, ap, inl, inr, begins_with, any, if◌then◌else◌, ◌&&◌, List,
  ℕ, eqb, ◌≢◌, Bool-cases, eqb_iff, arith, All, some, sym, ◌⊎◌, subst, String, trim,
}
use tuixiu.Pm.SensitivePaths.{
  Atom, one_unit, in_segment, anything, replace_all, escaped, is_special, signs,
  without_placeholder, with_double_star, with_single_star, plain, expression_text, placeholder,
  star, single_star, double_star, atoms_of, Before, Sign, then_emit, emitted, a_unit, a_repetition,
  complete,
}

-- The glob, read from its start: two asterisks, one asterisk, or a unit that stands for itself.
unfoldable pub glob_atoms : List ℕ → List Atom
glob_atoms [] = []
glob_atoms (c ∷ []) = (if eqb c 42 then in_segment else one_unit c) ∷ []
glob_atoms (c ∷ d ∷ s) =
    let after = glob_atoms s in
    let after_one = glob_atoms (d ∷ s) in
    if eqb c 42 && eqb d 42
    then anything ∷ after
    else (if eqb c 42 then in_segment else one_unit c) ∷ after_one

-- Neither the question mark nor the sign that the placeholder of the double asterisk is made of.
abbrev pub IsOrdinary : ℕ → Type 0
IsOrdinary c = (c ≢ 63) × (c ≢ 167)

differs : (c d : ℕ) → c ≢ d → eqb c d ≡ false
differs c d n = elim (Bool-cases (eqb c d)) [
  | inl same ↦ absurd (n ((eqb_iff c d).0 same))
  | inr apart ↦ apart
]

-- A unit that the needle does not begin with is kept.
replace_all-kept :
    (first : ℕ) (needle : List ℕ) (n : ℕ) (by : List ℕ) (c : ℕ) (s : List ℕ)
    → eqb c first ≡ false
    → replace_all (first ∷ needle) n by 0 (c ∷ s) ≡ c ∷ replace_all (first ∷ needle) n by 0 s
unfolding replace_all begins_with
replace_all-kept first needle n by c s apart = rw apart refl

not_special :
    (c : ℕ) → is_special c ≡ false → (eqb c 46 ≡ false) × (eqb c 91 ≡ false) × (eqb c 92 ≡ false)
unfolding any
not_special c h = ground arith

module _ (c : ℕ) (s : List ℕ) where
  stages_kept :
      eqb c 42 ≡ false
      → eqb c 167 ≡ false
      → without_placeholder (with_single_star (with_double_star (c ∷ s)))
        ≡ c ∷ without_placeholder (with_single_star (with_double_star s))
  stages_kept no_star no_mark =
      ap (λ u. without_placeholder (with_single_star u))
        (replace_all-kept 42 (42 ∷ []) 1 placeholder c s no_star)
      ∙ ap without_placeholder (replace_all-kept 42 [] 0 single_star c (with_double_star s) no_star)
      ∙ replace_all-kept 167
          (167 ∷ 68 ∷ 79 ∷ 85 ∷ 66 ∷ 76 ∷ 69 ∷ 83 ∷ 84 ∷ 65 ∷ 82 ∷ 167 ∷ 167 ∷ []) 13 double_star c
          (with_single_star (with_double_star s)) no_mark

  special_signs : signs 0 (92 ∷ c ∷ s) ≡ plain c ∷ signs 0 s
  unfolding signs begins_with
  special_signs = refl

  ordinary_signs : is_special c ≡ false → eqb c 63 ≡ false → signs 0 (c ∷ s) ≡ plain c ∷ signs 0 s
  unfolding signs begins_with
  ordinary_signs ordinary no_question =
      let (no_dot, no_bracket, no_slash) = not_special c ordinary in
      rw (no_bracket, no_dot, no_question, no_slash) refl

  escaped_special : is_special c ≡ true → escaped (c ∷ s) ≡ 92 ∷ c ∷ escaped s
  unfolding escaped
  escaped_special special = rw special refl

  escaped_ordinary : is_special c ≡ false → escaped (c ∷ s) ≡ c ∷ escaped s
  unfolding escaped
  escaped_ordinary ordinary = rw ordinary refl

abbrev stages : List ℕ → List ℕ
stages s = without_placeholder (with_single_star (with_double_star s))

signs_of_unit :
    (c : ℕ) (s : List ℕ)
    → c ≢ 42
    → IsOrdinary c
    → signs 0 (expression_text (c ∷ s)) ≡ plain c ∷ signs 0 (expression_text s)
signs_of_unit c s not_star (not_question, not_mark) =
    let no_star = differs c 42 not_star in
    let no_mark = differs c 167 not_mark in
    elim (Bool-cases (is_special c)) [
      | inl special ↦
          ap (λ u. signs 0 (stages u)) (escaped_special c s special)
          ∙ ap (signs 0) (stages_kept 92 (c ∷ escaped s) refl refl)
          ∙ ap (λ u. signs 0 (92 ∷ u)) (stages_kept c (escaped s) no_star no_mark)
          ∙ special_signs c (expression_text s)
      | inr ordinary ↦
          ap (λ u. signs 0 (stages u)) (escaped_ordinary c s ordinary)
          ∙ ap (signs 0) (stages_kept c (escaped s) no_star no_mark)
          ∙ ordinary_signs c (expression_text s) ordinary (differs c 63 not_question)
    ]

-- The text is not the start of a second asterisk.
abbrev NoStar : List ℕ → Type 0
NoStar [] = Unit
NoStar (c ∷ s) = c ≢ 42

escaped-NoStar : (s : List ℕ) → NoStar s → NoStar (escaped s)
unfolding escaped any
escaped-NoStar [] h = tt
escaped-NoStar (c ∷ s) h = elim (Bool-cases (is_special c)) [
  | inl special ↦ rw special (ground arith)
  | inr ordinary ↦ rw ordinary h
]

with_double_star-one : (s : List ℕ) → NoStar s → with_double_star (42 ∷ s) ≡ 42 ∷ with_double_star s
unfolding replace_all begins_with
with_double_star-one [] h = refl
with_double_star-one (c ∷ s) h = rw (differs c 42 h) refl

signs_of_star :
    (s : List ℕ)
    → NoStar s
    → signs 0 (expression_text (42 ∷ s)) ≡ star in_segment ∷ signs 0 (expression_text s)
unfolding escaped any replace_all begins_with signs
signs_of_star s h =
    ap (λ u. signs 0 (without_placeholder (with_single_star u)))
      (with_double_star-one (escaped s) (escaped-NoStar s h))

signs_of_double_star :
    (s : List ℕ)
    → signs 0 (expression_text (42 ∷ 42 ∷ s)) ≡ star anything ∷ signs 0 (expression_text s)
unfolding escaped any replace_all begins_with signs
signs_of_double_star s = refl

atoms_of-plain :
    (b : Before) (c : ℕ) (rest : List Sign)
    → atoms_of b (plain c ∷ rest) ≡ then_emit b (atoms_of (a_unit c) rest)
unfolding atoms_of
atoms_of-plain nothing c rest = refl
atoms_of-plain (a_unit d) c rest = refl
atoms_of-plain (a_repetition a) c rest = refl
atoms_of-plain (complete a) c rest = refl

atoms_of-star :
    (b : Before) (a : Atom) (rest : List Sign)
    → atoms_of b (star a ∷ rest) ≡ then_emit b (atoms_of (a_repetition a) rest)
unfolding atoms_of
atoms_of-star nothing a rest = refl
atoms_of-star (a_unit d) a rest = refl
atoms_of-star (a_repetition d) a rest = refl
atoms_of-star (complete d) a rest = refl

atoms_of-nil : (b : Before) → atoms_of b [] ≡ some (emitted b [])
unfolding atoms_of
atoms_of-nil nothing = refl
atoms_of-nil (a_unit d) = refl
atoms_of-nil (a_repetition d) = refl
atoms_of-nil (complete d) = refl

-- What is left of the pattern reads as a glob, whatever stands before it.
abbrev ReadsAsGlob : List ℕ → Type 0
ReadsAsGlob s =
    (b : Before) → atoms_of b (signs 0 (expression_text s)) ≡ some (emitted b (glob_atoms s))

unit_reads :
    (c : ℕ) (s : List ℕ)
    → c ≢ 42
    → IsOrdinary c
    → ReadsAsGlob s
    → (b : Before)
    → atoms_of b (signs 0 (expression_text (c ∷ s))) ≡ some (emitted b (one_unit c ∷ glob_atoms s))
unit_reads c s not_star ordinary rest b =
    ap (atoms_of b) (signs_of_unit c s not_star ordinary)
    ∙ atoms_of-plain b c (signs 0 (expression_text s))
    ∙ ap (then_emit b) (rest (a_unit c))

star_reads :
    (s : List ℕ)
    → NoStar s
    → ReadsAsGlob s
    → (b : Before)
    → atoms_of b (signs 0 (expression_text (42 ∷ s))) ≡ some (emitted b (in_segment ∷ glob_atoms s))
star_reads s no_star rest b =
    ap (atoms_of b) (signs_of_star s no_star)
    ∙ atoms_of-star b in_segment (signs 0 (expression_text s))
    ∙ ap (then_emit b) (rest (a_repetition in_segment))

double_star_reads :
    (s : List ℕ)
    → ReadsAsGlob s
    → (b : Before)
    → atoms_of b (signs 0 (expression_text (42 ∷ 42 ∷ s)))
      ≡ some (emitted b (anything ∷ glob_atoms s))
double_star_reads s rest b =
    ap (atoms_of b) (signs_of_double_star s)
    ∙ atoms_of-star b anything (signs 0 (expression_text s))
    ∙ ap (then_emit b) (rest (a_repetition anything))

glob_atoms-unit : (c : ℕ) (s : List ℕ) → c ≢ 42 → glob_atoms (c ∷ s) ≡ one_unit c ∷ glob_atoms s
unfolding glob_atoms
glob_atoms-unit c [] n = rw (differs c 42 n) refl
glob_atoms-unit c (d ∷ s) n = rw (differs c 42 n) refl

glob_atoms-star : (s : List ℕ) → NoStar s → glob_atoms (42 ∷ s) ≡ in_segment ∷ glob_atoms s
unfolding glob_atoms
glob_atoms-star [] n = refl
glob_atoms-star (d ∷ s) n = rw (differs d 42 n) refl

glob_atoms-double_star : (s : List ℕ) → glob_atoms (42 ∷ 42 ∷ s) ≡ anything ∷ glob_atoms s
unfolding glob_atoms
glob_atoms-double_star s = refl

-- by the first unit, and after an asterisk by the second
module _ (s : List ℕ) (rest : ReadsAsGlob s) (b : Before) where
  reads_star :
      NoStar s
      → atoms_of b (signs 0 (expression_text (42 ∷ s))) ≡ some (emitted b (glob_atoms (42 ∷ s)))
  reads_star n =
      star_reads s n rest b ∙ ap (λ atoms. some (emitted b atoms)) (sym (glob_atoms-star s n))

  reads_unit :
      (c : ℕ)
      → c ≢ 42
      → IsOrdinary c
      → atoms_of b (signs 0 (expression_text (c ∷ s))) ≡ some (emitted b (glob_atoms (c ∷ s)))
  reads_unit c n ordinary =
      unit_reads c s n ordinary rest b
      ∙ ap (λ atoms. some (emitted b atoms)) (sym (glob_atoms-unit c s n))

is_star : (c : ℕ) → (c ≡ 42) ⊎ (c ≢ 42)
is_star c = elim (Bool-cases (eqb c 42)) [
  | inl same ↦ inl ((eqb_iff c 42).0 same)
  | inr apart ↦ inr (λ e. absurd (cc (sym ((eqb_iff c 42).1 e) ∙ apart)))
]

-- the statement for a text whose first units are known
abbrev ReadAfter : Before → List ℕ → Type 0
ReadAfter b s = atoms_of b (signs 0 (expression_text s)) ≡ some (emitted b (glob_atoms s))

reads_as_glob : (s : List ℕ) → All IsOrdinary s → ReadsAsGlob s
unfolding escaped replace_all signs glob_atoms
reads_as_glob [] h b = atoms_of-nil b
reads_as_glob (c ∷ []) h b = elim (is_star c) [
  | inl e ↦ subst (λ x. ReadAfter b (x ∷ [])) (sym e) (reads_star [] (reads_as_glob [] tt) b tt)
  | inr n ↦ reads_unit [] (reads_as_glob [] tt) b c n h.0
]
reads_as_glob (c ∷ d ∷ s) h b = elim (is_star c) [
  | inl e ↦ elim (is_star d) [
    | inl e' ↦
        subst (λ x. ReadAfter b (x ∷ d ∷ s)) (sym e)
          (subst (λ x. ReadAfter b (42 ∷ x ∷ s)) (sym e')
            (double_star_reads s (reads_as_glob s h.1.1) b))
    | inr n ↦
        subst (λ x. ReadAfter b (x ∷ d ∷ s)) (sym e)
          (reads_star (d ∷ s) (reads_as_glob (d ∷ s) h.1) b n)
  ]
  | inr n ↦ reads_unit (d ∷ s) (reads_as_glob (d ∷ s) h.1) b c n h.0
]

-- A pattern without a question mark and without the sign of the placeholder gives the expression
-- that the pattern stands for when it is read as a glob, from its start, as two asterisks, one
-- asterisk or a unit that stands for itself.
pub glob_to_reg_exp-glob_atoms :
    (pattern : String)
    → All IsOrdinary (to_posix_path (units (trim pattern)))
    → glob_to_reg_exp pattern ≡ some (glob_atoms (to_posix_path (units (trim pattern))))
unfolding glob_to_reg_exp
glob_to_reg_exp-glob_atoms pattern h =
    reads_as_glob (to_posix_path (units (trim pattern))) h nothing
