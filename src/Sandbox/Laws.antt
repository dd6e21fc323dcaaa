-- ===== src/Sandbox/Laws.antt =====
-- The order of the levels that a workspace policy comes from.
use tuixiu.Prelude.{String, Option, true, ◌≡◌, ◌<|◌, ◌<|>◌, Option-cases, arith, ◌↔◌}
use tuixiu.Json.{Value}
use tuixiu.Sandbox.{
  WorkspacePolicy, git, mount, mount_unsupported, normalize_workspace_policy,
  resolve_workspace_policy, assert_workspace_policy_compat, is_sandbox_workspace_guest,
}

-- The policy of a workspace is the first known one of the task's, the role's, the project's and the
-- profile's, and git where none is known.
pub resolve_workspace_policy-resolved :
    (project_policy role_policy task_policy profile_policy : Option String)
    → (resolve_workspace_policy project_policy role_policy task_policy profile_policy).resolved ≡ (
        normalize_workspace_policy task_policy
          <|> normalize_workspace_policy role_policy
          <|> normalize_workspace_policy project_policy
          <|> normalize_workspace_policy profile_policy
        <| git)
unfolding resolve_workspace_policy
resolve_workspace_policy-resolved project_policy role_policy task_policy profile_policy = ground (
  arith,
  Option-cases (normalize_workspace_policy task_policy),
  Option-cases (normalize_workspace_policy role_policy),
  Option-cases (normalize_workspace_policy project_policy),
  Option-cases (normalize_workspace_policy profile_policy),
)

-- A policy is refused exactly where it is to mount the workspace and the sandbox says that its
-- workspace is the guest's.
pub assert_workspace_policy_compat_lem :
    (policy : WorkspacePolicy) (capabilities : Value)
    → (assert_workspace_policy_compat policy capabilities ≡ mount_unsupported)
      ↔ ((policy ≡ mount) × (is_sandbox_workspace_guest capabilities ≡ true))
unfolding assert_workspace_policy_compat is_sandbox_workspace_guest
assert_workspace_policy_compat_lem policy capabilities = ground arith
