-- ===== src/Sandbox.antt =====
-- backend/src/utils/sandboxCaps.ts and workspacePolicy.ts: what a sandbox can do, and how a run's
-- workspace is made.
pub mod Laws
use tuixiu.Prelude.{
  ℕ, String, Option, none, some, Bool, true, false, ◌==◌, ◌<|◌, codes, same, folded, trim,
  if◌then◌else◌, List,
}
use tuixiu.Json.{Value, bool, str, obj, as_record, get}

pub data WorkspacePolicy : Type 0 where
  git mount empty bundle : WorkspacePolicy

pub data PolicySource : Type 0 where
  task role project profile platform : PolicySource

pub record PolicyChain : Type 0 where
  pub task : Option WorkspacePolicy
  pub role : Option WorkspacePolicy
  pub project : Option WorkspacePolicy
  pub profile : Option WorkspacePolicy

pub record WorkspacePolicySource : Type 0 where
  pub resolved : WorkspacePolicy
  pub source : PolicySource
  pub chain : PolicyChain

abbrev policy_of_codes : List ℕ → Option WorkspacePolicy
policy_of_codes v =
    if same v (codes "git")
    then some git
    else if same v (codes "mount")
    then some mount
    else if same v (codes "empty")
    then some empty
    else if same v (codes "bundle")
    then some bundle
    else none

unfoldable pub normalize_workspace_policy : Option String → Option WorkspacePolicy
normalize_workspace_policy value = policy_of_codes (folded (value <| ""))

abbrev policy_text : WorkspacePolicy → String
policy_text git = "git"
policy_text mount = "mount"
policy_text empty = "empty"
policy_text bundle = "bundle"

abbrev pub chain_of : Option String → Option String → Option String → Option String → PolicyChain
chain_of project_policy role_policy task_policy profile_policy = record {
  task = normalize_workspace_policy task_policy;
  role = normalize_workspace_policy role_policy;
  project = normalize_workspace_policy project_policy;
  profile = normalize_workspace_policy profile_policy;
}

unfoldable pub resolve_workspace_policy :
    Option String → Option String → Option String → Option String → WorkspacePolicySource
resolve_workspace_policy project_policy role_policy task_policy profile_policy =
    let chain = chain_of project_policy role_policy task_policy profile_policy in
    elim chain.task [
      | some p ↦ record { resolved = p; source = PolicySource.task; chain = chain }
      | none ↦ elim chain.role [
        | some p ↦ record { resolved = p; source = PolicySource.role; chain = chain }
        | none ↦ elim chain.project [
          | some p ↦ record { resolved = p; source = PolicySource.project; chain = chain }
          | none ↦ elim chain.profile [
            | some p ↦ record { resolved = p; source = PolicySource.profile; chain = chain }
            | none ↦ record { resolved = git; source = PolicySource.platform; chain = chain }
          ]
        ]
      ]
    ]

pub data SandboxWorkspaceProvider : Type 0 where
  host guest : SandboxWorkspaceProvider

pub data SandboxGitPushMode : Type 0 where
  supported unsupported : SandboxGitPushMode

-- `caps.sandbox[key]` where both are objects
abbrev sandbox_field : String → Value → Option Value
sandbox_field key (obj caps) = elim (get "sandbox" caps) [
  | some (obj sandbox) ↦ get key sandbox
  | _ ↦ none
]
sandbox_field key _ = none

-- A provider that is not given as a text is taken as unknown.
unfoldable pub get_sandbox_workspace_provider : Value → Option SandboxWorkspaceProvider
get_sandbox_workspace_provider caps = elim (sandbox_field "workspaceProvider" caps) [
  | some (str raw) ↦
      let v = trim raw in
      if v == "guest" then some guest else if v == "host" then some host else none
  | _ ↦ none
]

unfoldable pub is_sandbox_workspace_guest : Value → Bool
is_sandbox_workspace_guest caps = elim (get_sandbox_workspace_provider caps) [
  | some guest ↦ true
  | _ ↦ false
]

unfoldable pub get_sandbox_git_push_mode : Value → Option SandboxGitPushMode
get_sandbox_git_push_mode caps = elim (sandbox_field "gitPush" caps) [
  | some (bool true) ↦ some supported
  | some (bool false) ↦ some unsupported
  | _ ↦ none
]

unfoldable pub is_sandbox_git_push_enabled : Value → Bool
is_sandbox_git_push_enabled caps = elim (get_sandbox_git_push_mode caps) [
  | some supported ↦ true
  | _ ↦ false
]

pub data Compat : Type 0 where
  compatible mount_unsupported : Compat

-- whether `assertWorkspacePolicyCompat` throws
unfoldable pub assert_workspace_policy_compat : WorkspacePolicy → Value → Compat
assert_workspace_policy_compat mount capabilities =
    elim (get_sandbox_workspace_provider capabilities) [
      | some guest ↦ mount_unsupported
      | _ ↦ compatible
    ]
assert_workspace_policy_compat _ capabilities = compatible
