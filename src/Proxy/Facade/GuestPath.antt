-- ===== src/Proxy/Facade/GuestPath.antt =====
-- acp-proxy/src/acpClientFacade.ts: the paths in the sandbox that an agent asks for. Links are not
-- followed here.
pub mod Segments
pub mod Inside
use tuixiu.Prelude.{
  ℕ, zero, suc, ◌+◌, ◌-◌, ◌≤◌, ◌<◌, String, Option, none, some, Bool, true, false, List, [], ◌∷◌,
  ◌++◌, arith, leb, ltb, eqb, ◌||◌, ◌&&◌, length, refl, ◌≡◌, ◌≢◌, inl, inr, Bool-cases,
  Option-cases, if◌then◌else◌, and_true, ◌∙◌, ap, sym, subst, ◌==◌, not, eqb_iff, eq_iff, eq_refl,
  map, is_some, ◌<|◌, All, ◌⊎◌, any, all, find,
}
use tuixiu.Prelude.{codes, trim, is_empty, same, begins_with}
use tuixiu.Proxy.Zip.{
  Segment, posix_normalize, begins_with_slash, ends_with_slash, enter_all, split_segments,
}

pub data PathResult : Type 0 where
  resolved : List ℕ → PathResult
  path_empty outside : PathResult

-- `opts.workspaceGuestRoot.trim() ? opts.workspaceGuestRoot.trim() : "/workspace"`
unfoldable pub guest_root : String → List ℕ
guest_root root = let r = trim root in if is_empty r then codes "/workspace" else codes r

-- `path.posix.join(root, raw)` of two texts that are not empty
abbrev pub posix_join : List ℕ → List ℕ → List ℕ
posix_join root raw = posix_normalize (root ++ 47 ∷ raw)

unfoldable pub with_separator : List ℕ → List ℕ
with_separator root = if ends_with_slash root then root else root ++ 47 ∷ []

-- the tests of a path that has been normalized
unfoldable pub if_below : List ℕ → List ℕ → PathResult
if_below root_norm normalized =
    if same normalized root_norm || begins_with normalized (with_separator root_norm)
    then resolved normalized
    else outside

unfoldable pub resolve_workspace_guest_path : String → String → PathResult
resolve_workspace_guest_path workspace_guest_root requested_path =
    let root = guest_root workspace_guest_root in
    let raw = trim requested_path in
    if is_empty raw
    then path_empty
    else let candidate =
        (if begins_with_slash (codes raw) then codes raw else posix_join root (codes raw)) in
      if_below (posix_normalize root) (posix_normalize candidate)

-- Where an absolute path leads, the last segment first.
abbrev pub stack : List ℕ → List Segment
stack p = enter_all false [] (split_segments p)
