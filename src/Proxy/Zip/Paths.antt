-- ===== src/Proxy/Zip/Paths.antt =====
-- A name that passes the test stays below the directory.
use tuixiu.Prelude.{
  [], ◌∷◌, ◌++◌, true, false, refl, ◌≡◌, ◌∙◌, ap, sym, inl, inr, List, Bool, any, if◌then◌else◌,
  Bool-cases, same, all, and_true,
}
use tuixiu.Proxy.Zip.{Segment, parent, is_parent, enter, enter_all, go_up, is_skipped, onto}

-- Some segment of the path goes up.
abbrev pub goes_up : List Segment → Bool
goes_up path = any is_parent path

parent_up : is_parent parent ≡ true
unfolding same
parent_up = refl

enter-goes_up :
    (path : List Segment) (seg : Segment)
    → goes_up path ≡ true
    → goes_up (enter true path seg) ≡ true
unfolding enter any
enter-goes_up path seg h = elim (Bool-cases (is_skipped seg)) [
  | inl skipped ↦ rw skipped h
  | inr taken ↦ elim (Bool-cases (is_parent seg)) [
    | inl up ↦ rw (taken, up) (go_up_keeps path h)
    | inr down ↦ rw (taken, down) (rw down h)
  ]
]
  where
    go_up_keeps : (p : List Segment) → goes_up p ≡ true → goes_up (go_up true p) ≡ true
    go_up_keeps [] k = absurd (cc)
    go_up_keeps (top ∷ below) k = elim (Bool-cases (is_parent top)) [
      | inl up ↦ rw (up, parent_up) refl
      | inr down ↦ rw down (rw down at k)
    ]

enter_all-goes_up :
    (path segs : List Segment) → goes_up path ≡ true → goes_up (enter_all true path segs) ≡ true
unfolding enter_all
enter_all-goes_up path [] h = h
enter_all-goes_up path (seg ∷ rest) h =
    enter_all-goes_up (enter true path seg) rest (enter-goes_up path seg h)

-- On top of a directory a relative path that does not go up is entered the same way.
enter_above :
    (path out : List Segment) (seg : Segment)
    → goes_up path ≡ false
    → goes_up (enter true path seg) ≡ false
    → enter false (path ++ out) seg ≡ enter true path seg ++ out
unfolding enter any
enter_above path out seg h k = elim (Bool-cases (is_skipped seg)) [
  | inl skipped ↦ rw skipped refl
  | inr taken ↦ elim (Bool-cases (is_parent seg)) [
    | inl up ↦ rw (taken, up) (up_above path h (rw (taken, up) at k))
    | inr down ↦ rw (taken, down) refl
  ]
]
  where
    up_above :
        (p : List Segment)
        → goes_up p ≡ false
        → goes_up (go_up true p) ≡ false
        → go_up false (p ++ out) ≡ go_up true p ++ out
    up_above [] h' k' = absurd (cc (rw parent_up at k'))
    up_above (top ∷ below) h' k' = elim (Bool-cases (is_parent top)) [
      | inl up ↦ absurd (cc (rw up at h'))
      | inr down ↦ rw down refl
    ]

pub enter_all_above :
    (path out segs : List Segment)
    → goes_up (enter_all true path segs) ≡ false
    → enter_all false (path ++ out) segs ≡ enter_all true path segs ++ out
unfolding enter_all
enter_all_above path out [] h = refl
enter_all_above path out (seg ∷ rest) h =
    let stays = stayed (enter true path seg) rest h in
    ap (λ p. enter_all false p rest) (enter_above path out seg (before path seg stays) stays)
    ∙ enter_all_above (enter true path seg) out rest h
  where
    stayed : (p segs : List Segment) → goes_up (enter_all true p segs) ≡ false → goes_up p ≡ false
    stayed p segs k = elim (Bool-cases (goes_up p)) [
      | inl up ↦ absurd (cc (sym (enter_all-goes_up p segs up) ∙ k))
      | inr down ↦ down
    ]

    before : (p : List Segment) (s : Segment) → goes_up (enter true p s) ≡ false → goes_up p ≡ false
    before p s k = elim (Bool-cases (goes_up p)) [
      | inl up ↦ absurd (cc (sym (enter-goes_up p s up) ∙ k))
      | inr down ↦ down
    ]

-- Below a segment that goes up there are only such segments.
abbrev pub ups_below : List Segment → Bool
ups_below [] = true
ups_below (top ∷ below) = if is_parent top then all is_parent below else ups_below below

ups_below-all : (path : List Segment) → all is_parent path ≡ true → ups_below path ≡ true
unfolding all
ups_below-all [] h = refl
ups_below-all (top ∷ below) h =
    let (up, rest) = and_true (is_parent top) (all is_parent below) h in rw up rest

enter-ups_below :
    (path : List Segment) (seg : Segment)
    → ups_below path ≡ true
    → ups_below (enter true path seg) ≡ true
unfolding enter all
enter-ups_below path seg h = elim (Bool-cases (is_skipped seg)) [
  | inl skipped ↦ rw skipped h
  | inr taken ↦ elim (Bool-cases (is_parent seg)) [
    | inl up ↦ rw (taken, up) (climbs path h)
    | inr down ↦ rw (taken, down) (rw down h)
  ]
]
  where
    climbs : (p : List Segment) → ups_below p ≡ true → ups_below (go_up true p) ≡ true
    climbs [] k = rw parent_up refl
    climbs (top ∷ below) k = elim (Bool-cases (is_parent top)) [
      | inl up ↦ rw (up, parent_up) (rw (up, rw up at k) refl)
      | inr down ↦ rw down (rw down at k)
    ]

pub enter_all-ups_below :
    (path segs : List Segment) → ups_below path ≡ true → ups_below (enter_all true path segs) ≡ true
unfolding enter_all
enter_all-ups_below path [] h = h
enter_all-ups_below path (seg ∷ rest) h =
    enter_all-ups_below (enter true path seg) rest (enter-ups_below path seg h)

abbrev pub StartsUp : List Segment → Type 0
StartsUp [] = ⊥
StartsUp (seg ∷ rest) = is_parent seg ≡ true

onto_parents :
    (path front : List Segment)
    → all is_parent path ≡ true
    → StartsUp front
    → StartsUp (onto path front)
unfolding all
onto_parents [] front h k = k
onto_parents (top ∷ below) front h k =
    let (up, rest) = and_true (is_parent top) (all is_parent below) h in
    onto_parents below (top ∷ front) rest up

pub onto-StartsUp :
    (path front : List Segment)
    → ups_below path ≡ true
    → goes_up path ≡ true
    → StartsUp (onto path front)
unfolding any
onto-StartsUp [] front h k = absurd (cc)
onto-StartsUp (top ∷ below) front h k = elim (Bool-cases (is_parent top)) [
  | inl up ↦ onto_parents below (top ∷ front) (rw up at h) up
  | inr down ↦ onto-StartsUp below (top ∷ front) (rw down at h) (rw down at k)
]
