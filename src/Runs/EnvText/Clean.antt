-- ===== src/Runs/EnvText/Clean.antt =====
-- No variable of a role names a token or a setting of git.
use tuixiu.Prelude.{
  String, none, true, false, [], ◌∷◌, ◌||◌, refl, ◌≡◌, inl, inr, Bool-cases, Option-cases,
  if◌then◌else◌, ◌∙◌, ap, subst, ◌==◌, eq_iff, is_some, is_empty,
}
use tuixiu.Prelude.{trim, select, same, begins_with}
use tuixiu.Runs.EnvText.{
  Env, get_env, put_env, set_env, copy_env, strip_forbidden_git_env, normalize_role_env,
  is_forbidden_git_env_key, upper_codes, upper,
}

-- A forbidden variable that is set is not there after the stripping.
strip-put_env :
    (key v : String) (env : Env)
    → is_forbidden_git_env_key key ≡ true
    → strip_forbidden_git_env (put_env key v env) ≡ strip_forbidden_git_env env
unfolding strip_forbidden_git_env select put_env
strip-put_env key v [] h = rw h refl
strip-put_env key v ((k, w) ∷ rest) h = elim (Bool-cases (k == key)) [
  | inl here ↦ rw (here, (eq_iff k key).0 here, h) refl
  | inr there ↦ rw (there, strip-put_env key v rest h) refl
]

strip-copy_env :
    (from to : String) (env : Env)
    → is_forbidden_git_env_key to ≡ true
    → strip_forbidden_git_env (copy_env from to env) ≡ strip_forbidden_git_env env
unfolding copy_env set_env
strip-copy_env from to env h = elim (Option-cases (get_env from env)) [
  | inl e ↦ rw (e, copy_env) refl
  | inr (v, e) ↦ elim (Bool-cases (is_empty v || is_some (get_env to env))) [
    | inl kept ↦ rw (e, kept, copy_env) refl
    | inr absent ↦ elim (Bool-cases (to == "__proto__")) [
      | inl proto ↦ rw (e, absent, proto, copy_env) refl
      | inr plain ↦ rw (e, absent, plain, copy_env) (strip-put_env to v env h)
    ]
  ]
]

get_env-strip :
    (key : String) (env : Env)
    → get_env key (strip_forbidden_git_env env)
      ≡ (if is_forbidden_git_env_key key then none else get_env key env)
unfolding get_env strip_forbidden_git_env select
get_env-strip key [] = elim (Bool-cases (is_forbidden_git_env_key key)) [
  | inl h ↦ rw h refl
  | inr h ↦ rw h refl
]
get_env-strip key ((k, v) ∷ rest) = elim (Bool-cases (is_forbidden_git_env_key k)) [
  | inl bad ↦ elim (Bool-cases (k == key)) [
    | inl here ↦
        let bad' : is_forbidden_git_env_key key ≡ true =
          subst (λ x. is_forbidden_git_env_key x ≡ true) ((eq_iff k key).0 here) bad in
        let rest_none = get_env-strip key rest in rw (bad, bad') (rw bad' at rest_none)
    | inr there ↦ rw (bad, there) (get_env-strip key rest)
  ]
  | inr good ↦ elim (Bool-cases (k == key)) [
    | inl here ↦
        let good' : is_forbidden_git_env_key key ≡ false =
          subst (λ x. is_forbidden_git_env_key x ≡ false) ((eq_iff k key).0 here) good in
        rw (good, here, good') refl
    | inr there ↦ rw (good, there) (get_env-strip key rest)
  ]
]

names_forbidden :
    (is_forbidden_git_env_key "GH_TOKEN" ≡ true)
    × (is_forbidden_git_env_key "GITHUB_TOKEN" ≡ true)
    × (is_forbidden_git_env_key "GITLAB_TOKEN" ≡ true)
    × (is_forbidden_git_env_key "GITLAB_ACCESS_TOKEN" ≡ true)
unfolding is_forbidden_git_env_key trim upper_codes upper same begins_with
names_forbidden = (refl, refl, refl, refl)

-- The variables of a role after they have been normalized are those that it has without the
-- forbidden ones: a name that is forbidden is not there, and every other one has the value that it
-- had.
pub normalize_role_env-get_env :
    (env : Env) (key : String)
    → (normalize_role_env env ≡ strip_forbidden_git_env env)
      × (get_env key (normalize_role_env env)
          ≡ (if is_forbidden_git_env_key key then none else get_env key env))
unfolding normalize_role_env
normalize_role_env-get_env env key =
    let (gh, github, gitlab, access) = names_forbidden in
    let first = copy_env "GH_TOKEN" "GITHUB_TOKEN" env in
    let second = copy_env "GITHUB_TOKEN" "GH_TOKEN" first in
    let third = copy_env "GITLAB_TOKEN" "GITLAB_ACCESS_TOKEN" second in
    let stripped : normalize_role_env env ≡ strip_forbidden_git_env env =
      strip-copy_env "GITLAB_ACCESS_TOKEN" "GITLAB_TOKEN" third gitlab
      ∙ strip-copy_env "GITLAB_TOKEN" "GITLAB_ACCESS_TOKEN" second access
      ∙ strip-copy_env "GITHUB_TOKEN" "GH_TOKEN" first gh
      ∙ strip-copy_env "GH_TOKEN" "GITHUB_TOKEN" env github in
    (stripped, ap (get_env key) stripped ∙ get_env-strip key env)
