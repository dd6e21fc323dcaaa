-- ===== src/Proxy/Runs/Names.antt =====
-- The names that a proxy accepts, and the one that the backend gives the sandbox of a run.
use tuixiu.Prelude.{
  ℕ, ◌+◌, String, false, ◌∷◌, ◌++◌, arith, ltb, refl, ◌≡◌, if◌then◌else◌, ◌∙◌, ap, all,
}
use Prim.Native.Char.{code}
use Prim.Native.String
use tuixiu.Prelude.{trim, is_empty, codes}
use tuixiu.Prelude.{trim-cat}
use text.Mathlib.TextLemmas.{cons-append, nil-append}
use tuixiu.Acp.Chunks.{utf16_length}
use tuixiu.Acp.Chunks.Bounds.{utf16_length-append}
use tuixiu.Acp.Prompts.Reopened.{prefix_plain}
use tuixiu.Workflow.Engine.{derive_sandbox_instance_name}
use tuixiu.Proxy.Runs.{
  validate_instance_name, valid, invalid, is_name, is_name_code, instance_name_too_long,
  instance_name_invalid,
}

codes-append : (a s : String) → codes (String.◌++◌ a s) ≡ codes a ++ codes s
codes-append String.[] s = ap codes (nil-append s)
codes-append (String.◌∷◌ c a) s =
    ap codes (cons-append c a s) ∙ ap (λ t. code c ∷ t) (codes-append a s)

shorter : (n : ℕ) → ltb 200 (11 + n) ≡ ltb 189 n
shorter n = ground arith

-- The name that the backend gives the sandbox of a run is accepted by the proxy as it is where the
-- id, without the spaces around it, has at most 189 units and only letters, digits, underscores,
-- dots and dashes; a longer id is refused as too long, and any other one for its characters.
pub validate_instance_name-derive_sandbox_instance_name :
    (run_id : String)
    → validate_instance_name (derive_sandbox_instance_name run_id) ≡ (
        if ltb 189 (utf16_length (trim run_id))
        then invalid instance_name_too_long
        else if all is_name_code (codes (trim run_id))
        then valid (derive_sandbox_instance_name run_id)
        else invalid instance_name_invalid)
unfolding validate_instance_name derive_sandbox_instance_name utf16_length all
validate_instance_name-derive_sandbox_instance_name run_id =
    let r = trim run_id in
    let name = derive_sandbox_instance_name run_id in
    let trimmed : trim name ≡ name = trim-cat _ _ run_id prefix_plain in
    let named : is_empty name ≡ false = ap is_empty (cons-append "t" "uixiu-run-" r) in
    let long : ltb 200 (utf16_length name) ≡ ltb 189 (utf16_length r) =
      ap (ltb 200) (utf16_length-append "tuixiu-run-" r) ∙ shorter (utf16_length r) in
    let plain : is_name (codes name) ≡ all is_name_code (codes r) =
      ap is_name (codes-append "tuixiu-run-" r) in
    rw (trimmed, named, long, plain) refl
