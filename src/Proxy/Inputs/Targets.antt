-- ===== src/Proxy/Inputs/Targets.antt =====
-- acp-proxy/src/runs/applyAgentInputs.ts, where a path is the list of its segments, the last one first.
use tuixiu.Prelude.{ℕ, String, Bool, false, List, [], ◌∷◌, ◌||◌, if◌then◌else◌, not, select}
use tuixiu.Prelude.{trim, same, begins_with, codes}
use tuixiu.Proxy.Zip.{parent, Segment, joined, onto, split_segments, enter_all}
use tuixiu.Proxy.Inputs.{with_slashes}

pub data HostTarget : Type 0 where
  resolved : List Segment → HostTarget
  escaped : HostTarget

abbrev pub is_named : Segment → Bool
is_named seg = not (same seg [])

abbrev pub ups : List Segment → List Segment → List Segment
ups [] rest = rest
ups (seg ∷ r) rest = parent ∷ ups r rest

-- `path.relative`, on the segments from the root on
unfoldable pub relative : List Segment → List Segment → List Segment
relative [] t = t
relative (a ∷ r) [] = ups (a ∷ r) []
relative (a ∷ r) (b ∷ t) = if same a b then relative r t else ups (a ∷ r) (b ∷ t)

-- A relative path is not absolute on POSIX.
unfoldable pub is_sub_path : List Segment → List Segment → Bool
unfolding relative
is_sub_path root target =
    let rel = joined (relative (onto root []) (onto target [])) in
    same rel [] || not (begins_with rel (46 ∷ 46 ∷ []))

-- the text that is resolved
abbrev pub target_codes : String → List ℕ
target_codes path = codes (trim (with_slashes path))

unfoldable pub resolve_host_target_path : List Segment → String → HostTarget
unfolding is_sub_path
resolve_host_target_path host_root rel_posix =
    let parts = select is_named (split_segments (target_codes rel_posix)) in
    let target = enter_all false host_root parts in
    if is_sub_path host_root target then resolved target else escaped
