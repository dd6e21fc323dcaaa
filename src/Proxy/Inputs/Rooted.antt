-- ===== src/Proxy/Inputs/Rooted.antt =====
-- Every input is put into its root.
use tuixiu.Prelude.{is_empty}
use tuixiu.Json.{prop, as_record, Value, Items, nil, cons}
use mathlib.Core.List.{append_assoc}
use tuixiu.Proxy.Zip.Inside.{same_self, eqb_same}
use tuixiu.Prelude.{
  ℕ, String, Option, some, Bool, true, false, List, [], ◌∷◌, ◌++◌, ◌||◌, refl, ◌≡◌, inl, inr,
  Bool-cases, Option-cases, if◌then◌else◌, ◌∙◌, ap, sym, subst, not, All, any,
}
use tuixiu.Prelude.{same, begins_with, select}
use tuixiu.Proxy.Zip.{
  Segment, enter_all, enter, split_segments, onto, rendered, parent, joined, posix_normalize,
  begins_with_slash, ends_with_slash,
}
use tuixiu.Proxy.Zip.Paths.{goes_up, StartsUp, onto-StartsUp, enter_all-ups_below, enter_all_above}
use tuixiu.Proxy.Inputs.{
  assert_relative_posix_path, ok, refused, Parsed, invalid_inputs, unsupported_version,
  invalid_items, patch_of, items_of, require, guard, target_text, trimmed, parse_apply,
  parse_access, parse_root, parse_source, fields_of, invalid_item, invalid_item_id,
  invalid_item_apply, invalid_item_target, invalid_item_target_root, invalid_item_source, ◌>>=◌,
  parse_item, parse_items, AgentInputItem, AgentInputsManifest, parse_agent_inputs_from_init,
  escapes,
}
use tuixiu.Proxy.Inputs.Targets.{
  resolved, escaped, target_codes, relative, is_named, resolve_host_target_path, is_sub_path,
}

-- the tests that let a normal form pass
abbrev is_here : List ℕ → Bool
is_here n = same n (46 ∷ []) || same n []

rendered-escapes :
    (trailing : Bool) (rest : List Segment)
    → let n = rendered false trailing (parent ∷ rest) in (is_here n ≡ false) × (escapes n ≡ true)
unfolding same begins_with joined
rendered-escapes true [] = (refl, refl)
rendered-escapes false [] = (refl, refl)
rendered-escapes true (seg ∷ rest) = (refl, refl)
rendered-escapes false (seg ∷ rest) = (refl, refl)

rendered_up :
    (trailing : Bool) (path : List Segment)
    → StartsUp path
    → let n = rendered false trailing path in (is_here n ≡ false) × (escapes n ≡ true)
rendered_up trailing [] h = absurd h
rendered_up trailing (seg ∷ rest) h =
    subst
      (λ x. let n = rendered false trailing (x ∷ rest) in (is_here n ≡ false) × (escapes n ≡ true))
      (sym (eqb_same seg parent h)) (rendered-escapes trailing rest)

normal_relative :
    (p : List ℕ)
    → begins_with_slash p ≡ false
    → posix_normalize p
      ≡ rendered false (ends_with_slash p) (onto (enter_all true [] (split_segments p)) [])
unfolding posix_normalize
normal_relative p h = rw h refl

here_stays :
    (raw : List ℕ) → same raw [] ≡ true → goes_up (enter_all true [] (split_segments raw)) ≡ false
unfolding enter_all split_segments enter same any
here_stays raw h = rw (eqb_same raw [] h) refl

-- A text that passes the test does not go up.
assert-stays :
    (path : String)
    → assert_relative_posix_path path ≡ ok tt
    → goes_up (enter_all true [] (split_segments (target_codes path))) ≡ false
unfolding assert_relative_posix_path
assert-stays path h =
    let raw = target_codes path in
    let n = posix_normalize raw in
    let stack = enter_all true [] (split_segments raw) in
    elim (Bool-cases (goes_up stack)) [
      | inr down ↦ down
      | inl up ↦ elim (Bool-cases (same raw [])) [
        | inl nothing ↦ absurd (cc (here_stays raw nothing))
        | inr something ↦ elim (Bool-cases (begins_with_slash raw)) [
          | inl full ↦ absurd (cc (rw (something, full) at h))
          | inr partial ↦
              let starts =
                onto-StartsUp stack [] (enter_all-ups_below [] (split_segments raw) refl) up in
              let tests = rendered_up (ends_with_slash raw) (onto stack []) starts in
              let text = normal_relative raw partial in
              let here : is_here n ≡ false = ap is_here text ∙ tests.0 in
              let out : escapes n ≡ true = ap escapes text ∙ tests.1 in
              absurd (cc (rw (something, partial, here, out) at h))
        ]
      ]
    ]

enter_nothing : (rel : Bool) (path : List Segment) → enter rel path [] ≡ path
unfolding enter same
enter_nothing rel path = refl

-- Empty parts are left out, which changes nothing.
enter_all-select :
    (rel : Bool) (path segs : List Segment)
    → enter_all rel path (select is_named segs) ≡ enter_all rel path segs
unfolding enter_all select
enter_all-select rel path [] = refl
enter_all-select rel path (seg ∷ rest) = elim (Bool-cases (same seg [])) [
  | inl empty ↦
      let here : enter rel path seg ≡ path =
        ap (enter rel path) (eqb_same seg [] empty) ∙ enter_nothing rel path in
      rw (empty, here) (enter_all-select rel path rest)
  | inr named ↦ rw named (enter_all-select rel (enter rel path seg) rest)
]

onto-append : (a b c : List Segment) → onto (a ++ b) c ≡ onto b (onto a c)
onto-append [] b c = refl
onto-append (seg ∷ a) b c = onto-append a b (seg ∷ c)

onto-split : (a c : List Segment) → onto a c ≡ onto a [] ++ c
onto-split [] c = refl
onto-split (seg ∷ a) c =
    onto-split a (seg ∷ c)
    ∙ sym (ap (λ x. x ++ c) (onto-split a (seg ∷ [])) ∙ append_assoc (onto a []) (seg ∷ []) c)

relative-append : (r t : List Segment) → relative r (r ++ t) ≡ t
unfolding relative
relative-append [] t = refl
relative-append (a ∷ r) t = rw (same_self a) (relative-append r t)

relative-deeper :
    (deeper root : List Segment)
    → relative (onto root []) (onto (deeper ++ root) []) ≡ onto deeper []
relative-deeper deeper root =
    ap (relative (onto root [])) (onto-append deeper root [] ∙ onto-split root (onto deeper []))
    ∙ relative-append (onto root []) (onto deeper [])

-- where an accepted path leads, from the root on
abbrev pub below : String → List Segment
below path = enter_all true [] (split_segments (target_codes path))

-- Its text begins with two dots.
abbrev pub begins_with_dots : String → Bool
begins_with_dots path =
    let rel = joined (onto (below path) []) in
    not (same rel [] || not (begins_with rel (46 ∷ 46 ∷ [])))

if-not : {A : Type 0} (b : Bool) (x y : A) → (if b then x else y) ≡ (if not b then y else x)
if-not true x y = refl
if-not false x y = refl

accepted_target :
    (host_root : List Segment) (path : String)
    → assert_relative_posix_path path ≡ ok tt
    → resolve_host_target_path host_root path
      ≡ (if begins_with_dots path then escaped else resolved (below path ++ host_root))
unfolding resolve_host_target_path is_sub_path
accepted_target host_root path h =
    let segs = split_segments (target_codes path) in
    let target : enter_all false host_root (select is_named segs) ≡ below path ++ host_root =
      enter_all-select false host_root segs
      ∙ enter_all_above [] host_root segs (assert-stays path h) in
    rw (target, relative-deeper (below path) host_root)
      (if-not
        (same (joined (onto (below path) [])) []
          || not (begins_with (joined (onto (below path) [])) (46 ∷ 46 ∷ [])))
        (resolved (below path ++ host_root)) escaped)

-- the item is put below the root, or refused for two dots at its start
abbrev pub IsRooted : List Segment → AgentInputItem → Type 0
IsRooted host_root item =
    resolve_host_target_path host_root item.path
    ≡ (if begins_with_dots item.path then escaped else resolved (below item.path ++ host_root))

bind_ok :
    {A B : Type 0} (m : Parsed A) (f : A → Parsed B) (b : B)
    → (m >>= f) ≡ ok b
    → (a : A) × (m ≡ ok a) × (f a ≡ ok b)
bind_ok (ok a) f b h = (a, refl, h)
bind_ok (refused e) f b h = absurd (cc h)

abbrev items_of_manifest :
    List AgentInputItem → Parsed (Option AgentInputsManifest) → List AgentInputItem
items_of_manifest items (ok (some m)) = m.items
items_of_manifest items _ = items

abbrev path_of : AgentInputItem → Parsed AgentInputItem → String
path_of item (ok i) = i.path
path_of item (refused e) = item.path

abbrev items_of_parsed : List AgentInputItem → Parsed (List AgentInputItem) → List AgentInputItem
items_of_parsed items (ok xs) = xs
items_of_parsed items (refused e) = items

module _ (to_text : Value → String) (is_one : Option Value → Bool) where
  parse_item-path :
      (raw : Value) (item : AgentInputItem)
      → parse_item to_text is_one raw ≡ ok item
      → assert_relative_posix_path item.path ≡ ok tt
  unfolding parse_item
  parse_item-path raw item h =
      let target = prop "target" (some raw) in
      let path = target_text to_text is_one target in
      let source = prop "source" (some raw) in
      let (_, _, h1) = bind_ok (require invalid_item (as_record raw)) _ item h in
      let (_, _, h2) =
        bind_ok
          (guard invalid_item_id (not (is_empty (trimmed to_text is_one (prop "id" (some raw)))))) _
          item h1 in
      let (_, _, h3) =
        bind_ok
          (require invalid_item_apply
            (parse_apply (trimmed to_text is_one (prop "apply" (some raw)))))
          _ item h2 in
      let (_, _, h4) = bind_ok (parse_access to_text is_one (prop "access" (some raw))) _ item h3 in
      let (_, _, h5) =
        bind_ok (require invalid_item_target (fields_of to_text is_one target)) _ item h4 in
      let (_, _, h6) =
        bind_ok
          (require invalid_item_target_root
            (parse_root (trimmed to_text is_one (prop "root" target))))
          _ item h5 in
      let (_, stays, h7) = bind_ok (assert_relative_posix_path path) _ item h6 in
      let (_, _, h8) =
        bind_ok (require invalid_item_source (fields_of to_text is_one source)) _ item h7 in
      let (_, _, h9) = bind_ok (parse_source to_text is_one source) _ item h8 in
      subst (λ x. assert_relative_posix_path x ≡ ok tt) (ap (path_of item) h9) stays

  parse_items-IsRooted :
      (raw : Items) (items : List AgentInputItem) (host_root : List Segment)
      → parse_items to_text is_one raw ≡ ok items
      → All (IsRooted host_root) items
  unfolding parse_items
  parse_items-IsRooted nil items host_root h =
      subst (All (IsRooted host_root)) (ap (items_of_parsed items) h) tt
  parse_items-IsRooted (cons first rest) items host_root h =
      let (item, e, h1) = bind_ok (parse_item to_text is_one first) _ items h in
      let (more, e', h2) = bind_ok (parse_items to_text is_one rest) _ items h1 in
      subst (All (IsRooted host_root)) (ap (items_of_parsed items) h2) (
        accepted_target host_root item.path (parse_item-path first item e),
        parse_items-IsRooted rest more host_root e',
      )

  -- Where the inputs of an agent are accepted, the target of each of them resolves, below whatever
  -- directory, to a path that is that directory followed by the segments of the target, or is
  -- refused, and this exactly where what remains of the target begins with two dots.
  pub parse_agent_inputs_from_init-IsRooted :
      (init : Option Value) (manifest : AgentInputsManifest) (host_root : List Segment)
      → parse_agent_inputs_from_init to_text is_one init ≡ ok (some manifest)
      → All (IsRooted host_root) manifest.items
  unfolding parse_agent_inputs_from_init
  parse_agent_inputs_from_init-IsRooted init manifest host_root h =
      elim (Option-cases (prop "agentInputs" init)) [
        | inl e ↦ absurd (cc (rw (e, parse_agent_inputs_from_init) at h))
        | inr (raw, e) ↦
            let h0 = rw (e, parse_agent_inputs_from_init) at h in
            let items = prop "items" (some raw) in
            let parsed = some manifest in
            let (_, _, h1) = bind_ok (require invalid_inputs (as_record raw)) _ parsed h0 in
            let (_, _, h2) =
              bind_ok (guard unsupported_version (is_one (prop "version" (some raw)))) _ parsed
                h1 in
            let (items_raw, _, h3) =
              bind_ok (require invalid_items (items_of to_text is_one items)) _ parsed h2 in
            let (_, _, h4) =
              bind_ok (patch_of to_text is_one (prop "envPatch" (some raw))) _ parsed h3 in
            let (items, e', h5) = bind_ok (parse_items to_text is_one items_raw) _ parsed h4 in
            subst (All (IsRooted host_root)) (ap (items_of_manifest items) h5)
              (parse_items-IsRooted items_raw items host_root e')
      ]
