-- ===== src/Pm/SensitivePaths/Matching.antt =====
-- The test of an expression decides what it means that a path matches.
use tuixiu.Prelude.{
  [], ◌∷◌, true, false, refl, ◌↔◌, ◌≡◌, inl, inr, ◌||◌, ◌&&◌, and_true, eqb_iff, ◌⊎◌, subst,
}
use tuixiu.Pm.SensitivePaths.{
  Atom, one_unit, optional_unit, in_segment, anything, test, repeated, is_line_terminator, ℕ, List,
  Bool, not, eqb,
}

-- the units that a repetition takes
abbrev passes : Atom → ℕ → Bool
passes in_segment c = not (eqb c 47)
passes anything c = not (is_line_terminator c)
passes _ c = false

pub data IsRepetition : Atom → Type 0 where
  segment : IsRepetition in_segment
  all_units : IsRepetition anything

-- A path matches an expression.
pub data Matches : List Atom → List ℕ → Type 0 where
  done : Matches [] []
  unit :
      {c : ℕ} {atoms : List Atom} {s : List ℕ}
      → Matches atoms s
      → Matches (one_unit c ∷ atoms) (c ∷ s)
  present :
      {c : ℕ} {atoms : List Atom} {s : List ℕ}
      → Matches atoms s
      → Matches (optional_unit c ∷ atoms) (c ∷ s)
  absent :
      {c : ℕ} {atoms : List Atom} {s : List ℕ}
      → Matches atoms s
      → Matches (optional_unit c ∷ atoms) s
  stop :
      {a : Atom} {atoms : List Atom} {s : List ℕ}
      → IsRepetition a
      → Matches atoms s
      → Matches (a ∷ atoms) s
  more :
      {a : Atom} {c : ℕ} {atoms : List Atom} {s : List ℕ}
      → IsRepetition a
      → passes a c ≡ true
      → Matches (a ∷ atoms) s
      → Matches (a ∷ atoms) (c ∷ s)

or_true : (a b : Bool) → (a || b) ≡ true → (a ≡ true) ⊎ (b ≡ true)
or_true true b h = inl refl
or_true false b h = inr h

repeated_sound :
    (a : Atom) (atoms : List Atom) (s : List ℕ)
    → IsRepetition a
    → ((s' : List ℕ) → test atoms s' ≡ true → Matches atoms s')
    → repeated (passes a) (test atoms) s ≡ true
    → Matches (a ∷ atoms) s
unfolding repeated
repeated_sound a atoms [] r ih h = stop r (ih [] h)
repeated_sound a atoms (c ∷ s) r ih h =
    elim (or_true (test atoms (c ∷ s)) (passes a c && repeated (passes a) (test atoms) s) h) [
      | inl now ↦ stop r (ih (c ∷ s) now)
      | inr later ↦
          let (passed, rest) = and_true (passes a c) (repeated (passes a) (test atoms) s) later in
          more r passed (repeated_sound a atoms s r ih rest)
    ]

sound : (atoms : List Atom) (s : List ℕ) → test atoms s ≡ true → Matches atoms s
unfolding test
sound [] [] h = done
sound [] (c ∷ s) h = absurd (cc)
sound (one_unit d ∷ atoms) [] h = absurd (cc)
sound (one_unit d ∷ atoms) (c ∷ s) h =
    let (same, rest) = and_true (eqb c d) (test atoms s) h in
    subst (λ x. Matches (one_unit x ∷ atoms) (c ∷ s)) ((eqb_iff c d).0 same)
      (unit (sound atoms s rest))
sound (optional_unit d ∷ atoms) [] h = absent (sound atoms [] h)
sound (optional_unit d ∷ atoms) (c ∷ s) h =
    elim (or_true (eqb c d && test atoms s) (test atoms (c ∷ s)) h) [
      | inl taken ↦
          let (same, rest) = and_true (eqb c d) (test atoms s) taken in
          subst (λ x. Matches (optional_unit x ∷ atoms) (c ∷ s)) ((eqb_iff c d).0 same)
            (present (sound atoms s rest))
      | inr left ↦ absent (sound atoms (c ∷ s) left)
    ]
sound (in_segment ∷ atoms) s h = repeated_sound in_segment atoms s segment (sound atoms) h
sound (anything ∷ atoms) s h = repeated_sound anything atoms s all_units (sound atoms) h

or_right : (a b : Bool) → b ≡ true → (a || b) ≡ true
or_right true b h = refl
or_right false b h = h

stop_test :
    (a : Atom) (atoms : List Atom) (s : List ℕ)
    → test atoms s ≡ true
    → repeated (passes a) (test atoms) s ≡ true
unfolding repeated
stop_test a atoms [] h = h
stop_test a atoms (c ∷ s) h = rw h refl

more_test :
    (a : Atom) (atoms : List Atom) (c : ℕ) (s : List ℕ)
    → passes a c ≡ true
    → repeated (passes a) (test atoms) s ≡ true
    → repeated (passes a) (test atoms) (c ∷ s) ≡ true
unfolding repeated
more_test a atoms c s passed h = or_right (test atoms (c ∷ s)) _ (rw (passed, h) refl)

complete_test : {atoms : List Atom} {s : List ℕ} → Matches atoms s → test atoms s ≡ true
unfolding test
complete_test done = refl
complete_test (unit {c} m) = rw ((eqb_iff c c).1 refl, complete_test m) refl
complete_test (present {c} m) = rw ((eqb_iff c c).1 refl, complete_test m) refl
complete_test (absent {s = []} m) = complete_test m
complete_test (absent {s = d ∷ s} m) = or_right _ _ (complete_test m)
complete_test (stop {atoms} {s} segment m) = stop_test in_segment atoms s (complete_test m)
complete_test (stop {atoms} {s} all_units m) = stop_test anything atoms s (complete_test m)
complete_test (more {c} {atoms} {s} segment passed m) =
    more_test in_segment atoms c s passed (complete_test m)
complete_test (more {c} {atoms} {s} all_units passed m) =
    more_test anything atoms c s passed (complete_test m)

-- The test of an expression on a path holds exactly where the path matches the expression.
pub test_iff : (atoms : List Atom) (s : List ℕ) → (test atoms s ≡ true) ↔ Matches atoms s
test_iff atoms s = (sound atoms s, complete_test)
