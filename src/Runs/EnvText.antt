-- ===== src/Runs/EnvText.antt =====
-- backend/src/utils/envText.ts, and the variables of a role in backend/src/modules/runs/runRecovery.ts
-- (normalizeRoleEnv). An object of variables is its list of keys and values; what is assigned to
-- `__proto__` is lost, as it is no object.
pub mod Clean
use tuixiu.Prelude.{
  ℕ, zero, suc, ◌+◌, ◌-◌, ◌≤◌, ◌<◌, String, Option, none, some, Bool, true, false, List, [], ◌∷◌,
  ◌++◌, arith, leb, ltb, eqb, ◌||◌, ◌&&◌, length, refl, ◌≡◌, ◌≢◌, inl, inr, Bool-cases,
  Option-cases, if◌then◌else◌, and_true, ◌∙◌, ap, sym, subst, ◌==◌, not, eqb_iff, eq_iff, eq_refl,
  map, is_some, ◌<|◌, All, ◌⊎◌, any, all, find,
}
use Prim.Native.Char.{code, Char}
use Prim.Native.String
use tuixiu.Prelude.{trim, is_empty, select, same, begins_with, codes}

abbrev pub Env : Type 0
Env = List (String × String)

unfoldable pub get_env : String → Env → Option String
get_env key [] = none
get_env key ((k, v) ∷ rest) = if k == key then some v else get_env key rest

unfoldable pub put_env : String → String → Env → Env
put_env key v [] = (key, v) ∷ []
put_env key v ((k, w) ∷ rest) = if k == key then (k, v) ∷ rest else (k, w) ∷ put_env key v rest

-- `out[key] = value`
unfoldable pub set_env : String → String → Env → Env
unfolding put_env
set_env key v env = if key == "__proto__" then env else put_env key v env

abbrev begins_line : String → Bool
begins_line String.[] = false
begins_line (String.◌∷◌ c s) = eqb (code c) 10

abbrev onto_first : Char → List String → List String
onto_first c [] = String.◌∷◌ c String.[] ∷ []
onto_first c (line ∷ rest) = String.◌∷◌ c line ∷ rest

-- `raw.split(/\r?\n/g)`
unfoldable pub split_lines : String → List String
split_lines String.[] = String.[] ∷ []
split_lines (String.◌∷◌ c s) =
    let rest = split_lines s in
    if eqb (code c) 10
    then String.[] ∷ rest
    else if eqb (code c) 13 && begins_line s
    then rest
    else onto_first c rest

-- the text before the first `=` and the one behind it
unfoldable pub split_at_eq : String → Option (String × String)
split_at_eq String.[] = none
split_at_eq (String.◌∷◌ c s) =
    let rest = split_at_eq s in
    if eqb (code c) 61
    then some (String.[], s)
    else elim rest [ none ↦ none | some (key, value) ↦ some (String.◌∷◌ c key, value) ]

-- the text without its last character, if that is the given one
unfoldable pub without_last : ℕ → String → Option String
without_last q String.[] = none
without_last q (String.◌∷◌ c String.[]) = if eqb (code c) q then some String.[] else none
without_last q (String.◌∷◌ c (String.◌∷◌ d s)) = elim (without_last q (String.◌∷◌ d s)) [
  | none ↦ none
  | some t ↦ some (String.◌∷◌ c t)
]

-- a value between double or between single quotes
unfoldable pub unquoted : String → String
unfolding without_last
unquoted String.[] = String.[]
unquoted (String.◌∷◌ c s) =
    if eqb (code c) 34 || eqb (code c) 39
    then without_last (code c) s <| String.◌∷◌ c s
    else String.◌∷◌ c s

-- the rest of a text that begins with the other
unfoldable pub after_start : List ℕ → String → Option String
after_start [] s = some s
after_start (c ∷ t) String.[] = none
after_start (c ∷ t) (String.◌∷◌ d s) = if eqb c (code d) then after_start t s else none

abbrev is_comment : String → Bool
is_comment String.[] = false
is_comment (String.◌∷◌ c s) = eqb (code c) 35

-- the line without `export`
abbrev pub without_export : String → String
without_export line = elim (after_start (codes "export ") line) [
  | none ↦ line
  | some rest ↦ trim rest
]

-- the assignment of a line
unfoldable pub assignment : String → Option (String × String)
unfolding split_at_eq after_start unquoted
assignment raw_line =
    let line = trim raw_line in
    if is_empty line || is_comment line then none else elim (split_at_eq (without_export line)) [
      | none ↦ none
      | some (key, value) ↦
          if is_empty (trim key) then none else some (trim key, unquoted (trim value))
    ]

unfoldable pub assign_lines : List String → Env → Env
unfolding assignment set_env
assign_lines [] out = out
assign_lines (line ∷ rest) out = elim (assignment line) [
  | none ↦ assign_lines rest out
  | some (key, value) ↦ assign_lines rest (set_env key value out)
]

unfoldable pub parse_env_text : Option String → Env
unfolding split_lines assign_lines
parse_env_text text = assign_lines (split_lines (text <| "")) []

-- `toUpperCase` of one code point, as far as it can give ASCII alone. The ligatures that begin with
-- `f` or `s` occur in none of the names below.
unfoldable pub upper : ℕ → List ℕ
upper c =
    if leb 97 c && leb c 122
    then (c - 32) ∷ []
    else if eqb c 305
    then 73 ∷ []
    else if eqb c 383
    then 83 ∷ []
    else if eqb c 223
    then 83 ∷ 83 ∷ []
    else c ∷ []

unfoldable pub upper_codes : String → List ℕ
unfolding upper
upper_codes String.[] = []
upper_codes (String.◌∷◌ c s) = upper (code c) ++ upper_codes s

unfoldable pub is_forbidden_git_env_key : String → Bool
unfolding upper_codes
is_forbidden_git_env_key key =
    let name = upper_codes (trim key) in
    begins_with name (codes "TUIXIU_GIT_")
    || same name (codes "GH_TOKEN")
    || same name (codes "GITHUB_TOKEN")
    || same name (codes "GITLAB_TOKEN")
    || same name (codes "GITLAB_ACCESS_TOKEN")

unfoldable pub strip_forbidden_git_env : Env → Env
unfolding is_forbidden_git_env_key
strip_forbidden_git_env env =
    select (λ (row : String × String). not (is_forbidden_git_env_key row.0)) env

-- `if (out[from] && out[to] === undefined) out[to] = out[from]`
unfoldable pub copy_env : String → String → Env → Env
unfolding set_env get_env
copy_env from to out = elim (get_env from out) [
  | none ↦ out
  | some v ↦ if is_empty v || is_some (get_env to out) then out else set_env to v out
]

unfoldable pub normalize_role_env : Env → Env
unfolding copy_env strip_forbidden_git_env
normalize_role_env env = strip_forbidden_git_env (
    copy_env "GITLAB_ACCESS_TOKEN" "GITLAB_TOKEN" (
      copy_env "GITLAB_TOKEN" "GITLAB_ACCESS_TOKEN"
        (copy_env "GITHUB_TOKEN" "GH_TOKEN" (copy_env "GH_TOKEN" "GITHUB_TOKEN" env))))
