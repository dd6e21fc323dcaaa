-- ===== src/Proxy/Facade/GuestPath/Inside.antt =====
-- A path that is accepted leads to the root or below it.
use tuixiu.Proxy.Zip.Inside.{eqb_same}
use tuixiu.Prelude.{
  ℕ, String, Bool, true, false, List, [], ◌∷◌, ◌++◌, eqb, refl, ◌≡◌, inl, inr, Bool-cases, and_true,
  ◌∙◌, ap, sym, subst, eqb_iff, All, ◌⊎◌, All-append, All-append_right, trim, is_empty,
}
use mathlib.Core.List.{append-nil, append_assoc}
use tuixiu.Prelude.{same, begins_with, codes}
use tuixiu.Proxy.Facade.GuestPath.{
  stack, resolved, guest_root, posix_join, with_separator, if_below, resolve_workspace_guest_path,
}
use tuixiu.Proxy.Facade.GuestPath.Segments.{
  HasNoSlash, IsDown, stack-IsDown, onto-IsDown, onto-onto, split_segments-slash,
  split_segments-joined, enter_all-append, enter_all-onto,
}
use tuixiu.Proxy.Zip.{
  Segment, posix_normalize, begins_with_slash, ends_with_slash, enter_all, enter, split_segments,
  is_skipped, is_parent, onto, joined, rendered,
}

-- the text of an absolute path without a slash at its end, and empty for the root directory
abbrev bare : List Segment → List ℕ
bare [] = []
bare (seg ∷ rest) = 47 ∷ joined (seg ∷ rest)

downs : List ℕ → List Segment
downs p = onto (stack p) []

downs-IsDown : (p : List ℕ) → All IsDown (downs p)
unfolding downs
downs-IsDown p = onto-IsDown (stack p) [] (stack-IsDown p) tt

no_slashes : (segs : List Segment) → All IsDown segs → All HasNoSlash segs
no_slashes [] h = tt
no_slashes (seg ∷ rest) h = (h.0.no_slash, no_slashes rest h.1)

split_segments-bare :
    (segs : List Segment) → All IsDown segs → split_segments (bare segs) ≡ [] ∷ segs
unfolding split_segments
split_segments-bare [] h = refl
split_segments-bare (seg ∷ rest) h =
    ap (λ (x : List Segment). [] ∷ x) (split_segments-joined seg rest (no_slashes (seg ∷ rest) h))

-- The text that follows the root's is empty, or a slash.
ending :
    (trailing : Bool) (segs : List Segment)
    → (e : List ℕ) × (rendered true trailing segs ≡ bare segs ++ e) × ((e ≡ []) ⊎ (e ≡ 47 ∷ []))
ending trailing [] = (47 ∷ [], refl, inr refl)
ending true (seg ∷ rest) = (47 ∷ [], refl, inr refl)
ending false (seg ∷ rest) = ([], refl, inl refl)

enter_all-empty :
    (path segs : List Segment) → enter_all false path ([] ∷ segs) ≡ enter_all false path segs
unfolding enter_all enter same
enter_all-empty path segs = refl

stack-bare : (segs : List Segment) → All IsDown segs → stack (bare segs) ≡ onto segs []
stack-bare segs h =
    ap (enter_all false []) (split_segments-bare segs h)
    ∙ enter_all-empty [] segs
    ∙ enter_all-onto [] segs h

-- What follows a slash is entered from where the path before it leads.
stack-below : (p t : List ℕ) → stack (p ++ 47 ∷ t) ≡ enter_all false (stack p) (split_segments t)
stack-below p t =
    ap (enter_all false []) (split_segments-slash p t)
    ∙ enter_all-append false [] (split_segments p) (split_segments t)

stack-slash : (p : List ℕ) → stack (p ++ 47 ∷ []) ≡ stack p
unfolding split_segments enter_all enter same
stack-slash p = stack-below p []

stack-ended : (p e : List ℕ) → (e ≡ []) ⊎ (e ≡ 47 ∷ []) → stack (p ++ e) ≡ stack p
stack-ended p e (inl bare_end) = rw (bare_end, append-nil p) refl
stack-ended p e (inr slash) = rw slash (stack-slash p)

normal_absolute :
    (p : List ℕ)
    → begins_with_slash p ≡ true
    → posix_normalize p ≡ rendered true (ends_with_slash p) (downs p)
unfolding posix_normalize downs
normal_absolute p h = rw h refl

onto-downs : (p : List ℕ) → onto (downs p) [] ≡ stack p
unfolding downs
onto-downs p = onto-onto (stack p) [] [] ∙ append-nil (stack p)

-- The normal form of an absolute path leads where the path leads.
stack-normalize : (p : List ℕ) → begins_with_slash p ≡ true → stack (posix_normalize p) ≡ stack p
stack-normalize p h =
    let (e, text, end) = ending (ends_with_slash p) (downs p) in
    rw (normal_absolute p h, text)
      (stack-ended (bare (downs p)) e end ∙ stack-bare (downs p) (downs-IsDown p) ∙ onto-downs p)

-- No segment of the path goes up.
abbrev pub NoParent : List ℕ → Type 0
NoParent p = All (λ seg. is_parent seg ≡ false) (split_segments p)

abbrev Level : Segment → Type 0
Level seg = is_parent seg ≡ false

downs-Level : (segs : List Segment) → All IsDown segs → All Level segs
downs-Level [] h = tt
downs-Level (seg ∷ rest) h = (h.0.down, downs-Level rest h.1)

bare-NoParent : (segs : List Segment) → All IsDown segs → NoParent (bare segs)
unfolding same
bare-NoParent segs h = rw (split_segments-bare segs h) (refl, downs-Level segs h)

ended-NoParent : (p e : List ℕ) → (e ≡ []) ⊎ (e ≡ 47 ∷ []) → NoParent p → NoParent (p ++ e)
unfolding same split_segments
ended-NoParent p e (inl bare_end) h = rw (bare_end, append-nil p) h
ended-NoParent p e (inr slash) h =
    rw (slash, split_segments-slash p [])
      (All-append Level (split_segments p) ([] ∷ []) h (refl, tt))

normalize-NoParent : (p : List ℕ) → begins_with_slash p ≡ true → NoParent (posix_normalize p)
normalize-NoParent p h =
    let (e, text, end) = ending (ends_with_slash p) (downs p) in
    rw (normal_absolute p h, text)
      (ended-NoParent (bare (downs p)) e end (bare-NoParent (downs p) (downs-IsDown p)))

-- Segments that do not go up are entered on top of the path.
enter_all-Level :
    (path segs : List Segment)
    → All Level segs
    → (deeper : List Segment) × (enter_all false path segs ≡ deeper ++ path)
unfolding enter_all enter
enter_all-Level path [] h = ([], refl)
enter_all-Level path (seg ∷ rest) h = elim (Bool-cases (is_skipped seg)) [
  | inl skipped ↦ let (deeper, e) = enter_all-Level path rest h.1 in (deeper, rw skipped e)
  | inr taken ↦
      let (deeper, e) = enter_all-Level (seg ∷ path) rest h.1 in
      (deeper ++ seg ∷ [], rw (taken, h.0) (e ∙ sym (append_assoc deeper (seg ∷ []) path)))
]

ends_with_slash-append :
    (s : List ℕ) (c : ℕ) (t : List ℕ) → ends_with_slash (s ++ c ∷ t) ≡ ends_with_slash (c ∷ t)
unfolding ends_with_slash
ends_with_slash-append [] c t = refl
ends_with_slash-append (a ∷ []) c t = refl
ends_with_slash-append (a ∷ b ∷ s) c t = ends_with_slash-append (b ∷ s) c t

ends_with_slash-no_slash :
    (c : ℕ) (s : List ℕ) → HasNoSlash (c ∷ s) → ends_with_slash (c ∷ s) ≡ false
unfolding ends_with_slash
ends_with_slash-no_slash c [] h = h.0
ends_with_slash-no_slash c (d ∷ s) h = ends_with_slash-no_slash d s h.1

-- The text of segments that go down does not end with a slash.
ends_with_slash-joined :
    (c : ℕ) (segs : List Segment) (seg : Segment)
    → All IsDown (seg ∷ segs)
    → ends_with_slash (c ∷ joined (seg ∷ segs)) ≡ false
unfolding ends_with_slash joined same
ends_with_slash-joined c [] [] h = absurd (cc (h.0.taken))
ends_with_slash-joined c [] (d ∷ s) h = ends_with_slash-no_slash d s h.0.no_slash
ends_with_slash-joined c (next ∷ rest) seg h =
    ends_with_slash-append (c ∷ seg) 47 (joined (next ∷ rest))
    ∙ ends_with_slash-joined 47 rest next h.1

with_separator-rendered :
    (trailing : Bool) (segs : List Segment)
    → All IsDown segs
    → with_separator (rendered true trailing segs) ≡ bare segs ++ 47 ∷ []
unfolding with_separator ends_with_slash
with_separator-rendered trailing [] h = refl
with_separator-rendered true (seg ∷ rest) h =
    rw (ends_with_slash-append (47 ∷ joined (seg ∷ rest)) 47 []) refl
with_separator-rendered false (seg ∷ rest) h =
    rw (append-nil (joined (seg ∷ rest)), ends_with_slash-joined 47 rest seg h) refl

begins_with-append : (s t : List ℕ) → begins_with s t ≡ true → (rest : List ℕ) × (s ≡ t ++ rest)
unfolding begins_with
begins_with-append s [] h = (s, refl)
begins_with-append [] (b ∷ t) h = absurd (cc)
begins_with-append (a ∷ s) (b ∷ t) h =
    let (here, there) = and_true (eqb a b) (begins_with s t) h in
    let (rest, e) = begins_with-append s t there in (rest, rw ((eqb_iff a b).0 here, e) refl)

-- The path is absolute, has no segment that goes up, and leads to the root or below it.
pub record IsBelow (root p : List ℕ) : Type 0 where
  pub absolute : begins_with_slash p ≡ true
  pub level : NoParent p
  pub deeper : List Segment
  pub leads : stack p ≡ deeper ++ stack root

rendered_absolute :
    (trailing : Bool) (segs : List Segment) → begins_with_slash (rendered true trailing segs) ≡ true
rendered_absolute trailing [] = refl
rendered_absolute trailing (seg ∷ rest) = refl

normalize_absolute :
    (p : List ℕ) → begins_with_slash p ≡ true → begins_with_slash (posix_normalize p) ≡ true
normalize_absolute p h = rw (normal_absolute p h) (rendered_absolute (ends_with_slash p) (downs p))

append_absolute : (p t : List ℕ) → begins_with_slash p ≡ true → begins_with_slash (p ++ t) ≡ true
append_absolute [] t h = absurd (cc)
append_absolute (c ∷ p) t h = h

module _ (root candidate : List ℕ) (absolute : begins_with_slash root ≡ true)
    (absolute' : begins_with_slash candidate ≡ true) where
  same_IsBelow :
      posix_normalize candidate ≡ posix_normalize root → IsBelow root (posix_normalize candidate)
  same_IsBelow e = record {
    absolute = normalize_absolute candidate absolute';
    level = normalize-NoParent candidate absolute';
    deeper = [];
    leads = ap stack e ∙ stack-normalize root absolute;
  }

  -- the root's text, where a slash follows it
  root_text : with_separator (posix_normalize root) ≡ bare (downs root) ++ 47 ∷ []
  root_text =
      rw (normal_absolute root absolute)
        (with_separator-rendered (ends_with_slash root) (downs root) (downs-IsDown root))

  prefix_IsBelow :
      begins_with (posix_normalize candidate) (with_separator (posix_normalize root)) ≡ true
      → IsBelow root (posix_normalize candidate)
  prefix_IsBelow h =
      let n = posix_normalize candidate in
      let (t, e) = begins_with-append n (with_separator (posix_normalize root)) h in
      let text : n ≡ bare (downs root) ++ 47 ∷ t =
        e ∙ ap (λ x. x ++ t) root_text ∙ append_assoc (bare (downs root)) (47 ∷ []) t in
      let ups : NoParent (bare (downs root) ++ 47 ∷ t) =
        subst NoParent text (normalize-NoParent candidate absolute') in
      let level =
        All-append_right Level (split_segments (bare (downs root))) (split_segments t)
          (rw (split_segments-slash (bare (downs root)) t) at ups) in
      let (deeper, below) = enter_all-Level (stack (bare (downs root))) (split_segments t) level in
      let base = stack-bare (downs root) (downs-IsDown root) ∙ onto-downs root in
      record {
        absolute = normalize_absolute candidate absolute';
        level = normalize-NoParent candidate absolute';
        deeper = deeper;
        leads =
            ap stack text ∙ stack-below (bare (downs root)) t ∙ below ∙ ap (λ x. deeper ++ x) base;
      }

  if_below-IsBelow :
      {p : List ℕ}
      → if_below (posix_normalize root) (posix_normalize candidate) ≡ resolved p
      → IsBelow root p
  unfolding if_below
  if_below-IsBelow {p} h =
      let n = posix_normalize candidate in
      elim (Bool-cases (same n (posix_normalize root))) [
        | inl equal ↦
            subst (IsBelow root) (resolved_inj (rw equal at h))
              (same_IsBelow (eqb_same n (posix_normalize root) equal))
        | inr other ↦ elim (Bool-cases (begins_with n (with_separator (posix_normalize root)))) [
          | inl below ↦
              subst (IsBelow root) (resolved_inj (rw (other, below) at h)) (prefix_IsBelow below)
          | inr beside ↦ absurd (cc (rw (other, beside) at h))
        ]
      ]
    where
      resolved_inj : {a b : List ℕ} → resolved a ≡ resolved b → a ≡ b
      resolved_inj e = cc

-- Where the root of the workspace is absolute, a path that is resolved is absolute, has no segment
-- that goes up, and leads to the root or below it, segment by segment.
pub resolve_workspace_guest_path-IsBelow :
    (workspace_guest_root requested_path : String) {p : List ℕ}
    → begins_with_slash (guest_root workspace_guest_root) ≡ true
    → resolve_workspace_guest_path workspace_guest_root requested_path ≡ resolved p
    → IsBelow (guest_root workspace_guest_root) p
unfolding resolve_workspace_guest_path
resolve_workspace_guest_path-IsBelow workspace_guest_root requested_path absolute h =
    let root = guest_root workspace_guest_root in
    let raw = trim requested_path in
    elim (Bool-cases (is_empty raw)) [
      | inl nothing ↦ absurd (cc (rw nothing at h))
      | inr something ↦ elim (Bool-cases (begins_with_slash (codes raw))) [
        | inl full ↦ if_below-IsBelow root (codes raw) absolute full (rw (something, full) at h)
        | inr partial ↦
            if_below-IsBelow root (posix_join root (codes raw)) absolute
              (normalize_absolute (root ++ 47 ∷ codes raw)
                (append_absolute root (47 ∷ codes raw) absolute))
              (rw (something, partial) at h)
      ]
    ]
