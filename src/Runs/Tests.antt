-- ===== src/Runs/Tests.antt =====
-- The variables of a role with a token.
use tuixiu.Prelude.{none, some, trim, ◌≡◌, [], ◌∷◌, if◌then◌else◌, refl}
use tuixiu.Runs.EnvText.{
  Env, get_env, normalize_role_env, strip_forbidden_git_env, is_forbidden_git_env_key,
  parse_env_text, assign_lines, assignment, split_lines, split_at_eq, set_env, put_env, after_start,
  unquoted, without_last,
}
use tuixiu.Runs.EnvText.Clean.{normalize_role_env-get_env}

abbrev role_env : Env
role_env = ("GH_TOKEN", "secret") ∷ ("EDITOR", "vi") ∷ []

normalize_role_env-get_env_example :
    (normalize_role_env role_env ≡ strip_forbidden_git_env role_env)
    × (get_env "EDITOR" (normalize_role_env role_env)
        ≡ (if is_forbidden_git_env_key "EDITOR" then none else get_env "EDITOR" role_env))
normalize_role_env-get_env_example = normalize_role_env-get_env role_env "EDITOR"

parsed_role_env :
    parse_env_text (some "# a role\nexport GH_TOKEN='secret'\n\n EDITOR = vi\n=x") ≡ role_env
unfolding parse_env_text assign_lines assignment split_lines split_at_eq set_env put_env after_start
    unquoted without_last trim
parsed_role_env = refl
