-- ===== src/Pm/SensitivePaths/Hits.antt =====
-- What is reported of a list of paths.
use mathlib.Core.List.{append-nil, append_assoc}
use tuixiu.Pm.SensitivePaths.{
  match_any_glob, glob_to_reg_exp, test, to_posix_path, units, SensitiveHit, add_patterns,
  add_pattern, collect, compute_sensitive_hit_from_paths, if_any_files,
}
use tuixiu.Prelude.{
  [], ◌∷◌, none, some, true, false, refl, ◌≡◌, ◌∙◌, ap, inl, inr, ◌&&◌, any, map, select, String,
  Bool, List, not, trim, is_empty, Bool-cases, Option-cases, Option, ◌++◌, sym, or_false,
  select-any_none,
}

-- A pattern that is no expression, and one that matches.
abbrev pub is_invalid : String → Bool
is_invalid raw =
    not (is_empty (trim raw)) && elim (glob_to_reg_exp (trim raw)) [ none ↦ true | some _ ↦ false ]

abbrev pub holds_of : String → String → Bool
holds_of path raw = not (is_empty (trim raw)) && elim (glob_to_reg_exp (trim raw)) [
  | none ↦ false
  | some re ↦ test re (to_posix_path (units path))
]

match_any_glob-select :
    (path : String) (patterns : List String)
    → any is_invalid patterns ≡ false
    → match_any_glob path patterns ≡ some (map trim (select (holds_of path) patterns))
unfolding match_any_glob any select
match_any_glob-select path [] h = refl
match_any_glob-select path (raw ∷ rest) h =
    let (sound, others) = or_false (is_invalid raw) (any is_invalid rest) h in
    let later = match_any_glob-select path rest others in
    elim (Bool-cases (is_empty (trim raw))) [
      | inl blank ↦ rw blank later
      | inr filled ↦ elim (Option-cases (glob_to_reg_exp (trim raw))) [
        | inl broken ↦ absurd (cc (rw (filled, broken) at sound))
        | inr (re, read) ↦ elim (Bool-cases (test re (to_posix_path (units path)))) [
          | inl holds ↦ rw (filled, read, later, holds) refl
          | inr other ↦ rw (filled, read, later, other) refl
        ]
      ]
    ]

module _ (patterns : List String) where
  -- A path that is reported, and the patterns that are reported of it.
  abbrev pub is_sensitive : String → Bool
  is_sensitive p = not (is_empty p) && any (holds_of p) patterns

  abbrev pub named_by : String → List String
  named_by p = map trim (select (holds_of p) patterns)

  unfoldable pub all_named_by : List String → List String
  all_named_by [] = []
  all_named_by (p ∷ rest) = named_by p ++ all_named_by rest

  abbrev pub sensitive_files : List String → List String
  sensitive_files paths = select is_sensitive (map trim paths)

  abbrev report : List String → SensitiveHit → SensitiveHit
  report files hit = record {
    matched_files = hit.matched_files ++ files;
    patterns = add_patterns hit.patterns (all_named_by files);
  }

add_patterns-append :
    (seen xs ys : List String)
    → add_patterns seen (xs ++ ys) ≡ add_patterns (add_patterns seen xs) ys
unfolding add_patterns
add_patterns-append seen [] ys = refl
add_patterns-append seen (x ∷ xs) ys = add_patterns-append (add_pattern x seen) xs ys

select-any_some :
    {A : Type 0} (p : A → Bool) (xs : List A)
    → any p xs ≡ true
    → (x : A) × (rest : List A) × (select p xs ≡ x ∷ rest)
unfolding any select
select-any_some p [] h = absurd (cc)
select-any_some p (x ∷ xs) h = elim (Bool-cases (p x)) [
  | inl on ↦ (x, select p xs, rw on refl)
  | inr off ↦ rw off (select-any_some p xs (rw off at h))
]

module _ (pat : String) (pats : List String) where
  abbrev patterns : List String
  patterns = pat ∷ pats

  report-nil : (hit : SensitiveHit) → report patterns [] hit ≡ hit
  unfolding all_named_by add_patterns
  report-nil hit =
      ap (λ files. record { matched_files = files; patterns = hit.patterns })
        (append-nil hit.matched_files)

  report-cons :
      (p : String) (files named : List String) (hit : SensitiveHit)
      → named_by patterns p ≡ named
      → report patterns files (record {
        matched_files = hit.matched_files ++ p ∷ [];
        patterns = add_patterns hit.patterns named;
      })
        ≡ report patterns (p ∷ files) hit
  unfolding all_named_by
  report-cons p files named hit e =
      ap
        (λ listed. record {
          matched_files = listed;
          patterns = add_patterns (add_patterns hit.patterns named) (all_named_by patterns files);
        })
        (append_assoc hit.matched_files (p ∷ []) files)
      ∙ ap (λ listed. record { matched_files = hit.matched_files ++ p ∷ files; patterns = listed })
          (sym (add_patterns-append hit.patterns named (all_named_by patterns files))
            ∙ ap (λ ms. add_patterns hit.patterns (ms ++ all_named_by patterns files)) (sym e))

  collect-report :
      (paths : List String) (hit : SensitiveHit)
      → any is_invalid patterns ≡ false
      → collect patterns paths hit ≡ some (report patterns (sensitive_files patterns paths) hit)
  unfolding collect select
  collect-report [] hit valid = ap some (sym (report-nil hit))
  collect-report (raw ∷ rest) hit valid =
      let p = trim raw in
      let found = match_any_glob-select p patterns valid in
      elim (Bool-cases (is_empty p)) [
        | inl blank ↦ rw blank (collect-report rest hit valid)
        | inr filled ↦ elim (Bool-cases (any (holds_of p) patterns)) [
          | inl on ↦
              let (m, more, selected) = select-any_some (holds_of p) patterns on in
              rw (filled, found, selected, on)
                (collect-report rest
                    (record {
                      matched_files = hit.matched_files ++ p ∷ [];
                      patterns = add_patterns hit.patterns (trim m ∷ map trim more);
                    })
                    valid
                  ∙ ap some (
                      report-cons p (sensitive_files patterns rest) (trim m ∷ map trim more) hit
                        (ap (map trim) selected)))
          | inr off ↦
              rw (filled, found, select-any_none (holds_of p) patterns off, off)
                (collect-report rest hit valid)
        ]
      ]

  -- what is reported of the sensitive files
  abbrev pub reported : List String → Option SensitiveHit
  reported [] = none
  reported (p ∷ more) = some (record {
    matched_files = p ∷ more;
    patterns = add_patterns [] (all_named_by patterns (p ∷ more));
  })

  -- Where all the patterns, of which there is one at least, are empty or expressions, the hit of a
  -- list of paths has the trimmed paths that are not empty and that some pattern matches, in their
  -- order, with the patterns that match them, each once, and there is none if no path is such.
  pub compute_sensitive_hit_from_paths-sensitive_files :
      (paths : List String)
      → any is_invalid patterns ≡ false
      → compute_sensitive_hit_from_paths paths patterns
        ≡ some (reported (sensitive_files patterns paths))
  unfolding compute_sensitive_hit_from_paths
  compute_sensitive_hit_from_paths-sensitive_files paths valid =
      rw
        (
          collect-report paths (record { matched_files = []; patterns = [] }) valid,
          compute_sensitive_hit_from_paths,
        )
        (ap some (shown (sensitive_files patterns paths)))
    where
      shown :
          (files : List String)
          → if_any_files (report patterns files (record { matched_files = []; patterns = [] }))
            ≡ reported files
      shown [] = refl
      shown (p ∷ more) = refl
