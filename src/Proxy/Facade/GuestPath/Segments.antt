-- ===== src/Proxy/Facade/GuestPath/Segments.antt =====
-- The segments of a normal path.
use tuixiu.Prelude.{ℕ, Bool, false, List, [], ◌∷◌, ◌++◌, eqb, refl, ◌≡◌, inl, inr, Bool-cases, All}
use tuixiu.Proxy.Facade.GuestPath.{stack}
use tuixiu.Proxy.Zip.{
  Segment, enter_all, enter, split_segments, is_skipped, is_parent, onto, joined, to_first, go_up,
}

abbrev pub HasNoSlash : Segment → Type 0
HasNoSlash seg = All (λ c. eqb c 47 ≡ false) seg

-- a segment that goes down
pub record IsDown (seg : Segment) : Type 0 where
  pub no_slash : HasNoSlash seg
  pub taken : is_skipped seg ≡ false
  pub down : is_parent seg ≡ false

pub split_segments-HasNoSlash : (s : List ℕ) → All HasNoSlash (split_segments s)
unfolding split_segments
split_segments-HasNoSlash [] = (tt, tt)
split_segments-HasNoSlash (c ∷ s) = elim (Bool-cases (eqb c 47)) [
  | inl slash ↦ rw slash (tt, split_segments-HasNoSlash s)
  | inr other ↦ rw other (first c (split_segments s) other (split_segments-HasNoSlash s))
]
  where
    first :
        (c : ℕ) (segs : List Segment)
        → eqb c 47 ≡ false
        → All HasNoSlash segs
        → All HasNoSlash (to_first c segs)
    first c [] e h = ((e, tt), tt)
    first c (seg ∷ rest) e h = ((e, h.0), h.1)

enter-IsDown :
    (path : List Segment) (seg : Segment)
    → All IsDown path
    → HasNoSlash seg
    → All IsDown (enter false path seg)
unfolding enter
enter-IsDown path seg h n = elim (Bool-cases (is_skipped seg)) [
  | inl skipped ↦ rw skipped h
  | inr taken ↦ elim (Bool-cases (is_parent seg)) [
    | inl up ↦ rw (taken, up) (above path h)
    | inr down ↦ rw (taken, down) (record { no_slash = n; taken = taken; down = down }, h)
  ]
]
  where
    above : (p : List Segment) → All IsDown p → All IsDown (go_up false p)
    above [] k = tt
    above (top ∷ below) k = rw (k.0.down) k.1

pub enter_all-IsDown :
    (path segs : List Segment)
    → All IsDown path
    → All HasNoSlash segs
    → All IsDown (enter_all false path segs)
unfolding enter_all
enter_all-IsDown path [] h n = h
enter_all-IsDown path (seg ∷ rest) h n =
    enter_all-IsDown (enter false path seg) rest (enter-IsDown path seg h n.0) n.1

pub stack-IsDown : (p : List ℕ) → All IsDown (stack p)
stack-IsDown p = enter_all-IsDown [] (split_segments p) tt (split_segments-HasNoSlash p)

pub onto-IsDown : (a b : List Segment) → All IsDown a → All IsDown b → All IsDown (onto a b)
onto-IsDown [] b h k = k
onto-IsDown (seg ∷ a) b h k = onto-IsDown a (seg ∷ b) h.1 (h.0, k)

pub onto-onto : (a b c : List Segment) → onto (onto a b) c ≡ onto b (a ++ c)
onto-onto [] b c = refl
onto-onto (seg ∷ a) b c = onto-onto a (seg ∷ b) c

split_segments-cons :
    (s : List ℕ) → (seg : Segment) × (rest : List Segment) × (split_segments s ≡ seg ∷ rest)
unfolding split_segments
split_segments-cons [] = ([], [], refl)
split_segments-cons (c ∷ s) = elim (Bool-cases (eqb c 47)) [
  | inl slash ↦ ([], split_segments s, rw slash refl)
  | inr other ↦ let (seg, rest, e) = split_segments-cons s in (c ∷ seg, rest, rw (other, e) refl)
]

-- A slash divides the segments.
pub split_segments-slash :
    (s t : List ℕ) → split_segments (s ++ 47 ∷ t) ≡ split_segments s ++ split_segments t
unfolding split_segments
split_segments-slash [] t = refl
split_segments-slash (c ∷ s) t = elim (Bool-cases (eqb c 47)) [
  | inl slash ↦ rw (slash, split_segments-slash s t) refl
  | inr other ↦
      let (seg, rest, e) = split_segments-cons s in rw (other, split_segments-slash s t, e) refl
]

split_segments-segment : (seg : Segment) → HasNoSlash seg → split_segments seg ≡ seg ∷ []
unfolding split_segments
split_segments-segment [] h = refl
split_segments-segment (c ∷ s) h = rw (h.0, split_segments-segment s h.1) refl

pub split_segments-joined :
    (seg : Segment) (rest : List Segment)
    → All HasNoSlash (seg ∷ rest)
    → split_segments (joined (seg ∷ rest)) ≡ seg ∷ rest
unfolding joined
split_segments-joined seg [] h = split_segments-segment seg h.0
split_segments-joined seg (next ∷ rest) h =
    rw
      (
        split_segments-slash seg (joined (next ∷ rest)),
        split_segments-segment seg h.0,
        split_segments-joined next rest h.1,
      )
      refl

pub enter_all-append :
    (relative : Bool) (path a b : List Segment)
    → enter_all relative path (a ++ b) ≡ enter_all relative (enter_all relative path a) b
unfolding enter_all
enter_all-append relative path [] b = refl
enter_all-append relative path (seg ∷ a) b = enter_all-append relative (enter relative path seg) a b

pub enter_all-onto :
    (path segs : List Segment) → All IsDown segs → enter_all false path segs ≡ onto segs path
unfolding enter_all enter
enter_all-onto path [] h = refl
enter_all-onto path (seg ∷ rest) h = rw (h.0.taken, h.0.down) (enter_all-onto (seg ∷ path) rest h.1)
