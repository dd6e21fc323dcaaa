-- ===== src/Proxy/Zip/Inside.antt =====
-- A name that passes the tests is resolved to a path below the directory.
use tuixiu.Proxy.Zip.Paths.{StartsUp, goes_up, onto-StartsUp, enter_all_above, enter_all-ups_below}
use tuixiu.Prelude.{
  [], ◌∷◌, ◌++◌, true, false, refl, ◌≡◌, ◌∙◌, ap, sym, inl, inr, List, Bool, not, same, ℕ, and_true,
  ◌||◌, begins_with, eqb, eqb_iff, or_true_right, subst, Bool-cases,
}
use tuixiu.Proxy.Zip.{
  Segment, parent, contains, joined, begins_with_slash, rendered, is_drive, is_zip_slip_path,
  posix_normalize, enter_all, split_segments, ends_with_slash, target_path, same_path, is_inside,
  onto,
}

pub eqb_same : (s t : List ℕ) → same s t ≡ true → s ≡ t
unfolding same
eqb_same [] [] h = refl
eqb_same [] (b ∷ t) h = absurd (cc)
eqb_same (a ∷ s) [] h = absurd (cc)
eqb_same (a ∷ s) (b ∷ t) h =
    let (first, rest) = and_true (eqb a b) (same s t) h in
    ap (λ x. x ∷ s) ((eqb_iff a b).0 first) ∙ ap (λ u. b ∷ u) (eqb_same s t rest)

-- the tests of a normalized text
abbrev is_slip : List ℕ → Bool
is_slip n =
    same n []
    || same n (46 ∷ [])
    || same n parent
    || begins_with n (46 ∷ 46 ∷ 47 ∷ [])
    || contains (47 ∷ 46 ∷ 46 ∷ 47 ∷ []) n
    || begins_with_slash n
    || is_drive n

rendered_absolute :
    (trailing : Bool) (path : List Segment) → is_slip (rendered true trailing path) ≡ true
unfolding same begins_with contains
rendered_absolute trailing [] = refl
rendered_absolute trailing (seg ∷ rest) =
    let n = rendered true trailing (seg ∷ rest) in
    ap (λ b. b || is_drive n) (or_true_right (contains (47 ∷ 46 ∷ 46 ∷ 47 ∷ []) n))

rendered_up :
    (trailing : Bool) (rest : List Segment)
    → is_slip (rendered false trailing (parent ∷ rest)) ≡ true
unfolding same begins_with joined
rendered_up true [] = refl
rendered_up false [] = refl
rendered_up true (seg ∷ rest) = refl
rendered_up false (seg ∷ rest) = refl

rendered-StartsUp :
    (trailing : Bool) (path : List Segment)
    → StartsUp path
    → is_slip (rendered false trailing path) ≡ true
rendered-StartsUp trailing [] h = absurd h
rendered-StartsUp trailing (seg ∷ rest) h =
    subst (λ x. is_slip (rendered false trailing (x ∷ rest)) ≡ true) (sym (eqb_same seg parent h))
      (rendered_up trailing rest)

slip_when :
    (p : List ℕ) {b : Bool}
    → begins_with_slash p ≡ b
    → is_zip_slip_path p
      ≡ is_slip (rendered b (ends_with_slash p) (onto (enter_all (not b) [] (split_segments p)) []))
unfolding is_zip_slip_path posix_normalize
slip_when p e =
    ap
      (λ b.
        is_slip
          (rendered b (ends_with_slash p) (onto (enter_all (not b) [] (split_segments p)) [])))
      e

-- The name is relative, and its normal form does not go up.
allowed_stays :
    (p : List ℕ)
    → is_zip_slip_path p ≡ false
    → goes_up (enter_all true [] (split_segments p)) ≡ false
allowed_stays p h =
    let path = enter_all true [] (split_segments p) in
    elim (Bool-cases (begins_with_slash p)) [
      | inl absolute ↦
          absurd (cc (sym (slip_when p absolute ∙ rendered_absolute (ends_with_slash p) _) ∙ h))
      | inr relative ↦ elim (Bool-cases (goes_up path)) [
        | inr down ↦ down
        | inl up ↦
            let starts =
              onto-StartsUp path [] (enter_all-ups_below [] (split_segments p) refl) up in
            absurd (
              cc (
                sym (
                  slip_when p relative
                  ∙ rendered-StartsUp (ends_with_slash p) (onto path []) starts)
                ∙ h))
      ]
    ]

-- The name of an entry that passes the test of zip slips is resolved, from the output directory, to
-- that directory with the normal form of the name below it.
pub target_path-enter_all :
    (out : List Segment) (raw_name : List ℕ)
    → is_zip_slip_path raw_name ≡ false
    → target_path out raw_name ≡ enter_all true [] (split_segments raw_name) ++ out
unfolding target_path
target_path-enter_all out raw_name allowed =
    enter_all_above [] out (split_segments raw_name) (allowed_stays raw_name allowed)

pub same_self : (s : List ℕ) → same s s ≡ true
unfolding same
same_self [] = refl
same_self (c ∷ s) = rw ((eqb_iff c c).1 refl, same_self s) refl

same_path_self : (p : List Segment) → same_path p p ≡ true
unfolding same_path same
same_path_self [] = refl
same_path_self (seg ∷ rest) = rw (same_self seg, same_path_self rest) refl

pub is_inside-append : (path out : List Segment) → is_inside out (path ++ out) ≡ true
unfolding is_inside
is_inside-append [] [] = same_path_self []
is_inside-append [] (seg ∷ rest) = rw (same_path_self (seg ∷ rest)) refl
is_inside-append (seg ∷ rest) out =
    rw (is_inside-append rest out) (or_true_right (same_path (seg ∷ rest ++ out) out))
