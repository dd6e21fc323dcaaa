-- ===== src/Proxy/Inputs.antt =====
-- acp-proxy/src/runs/agentInputs.ts: the inputs that a run's sandbox is given. A value is read as a text
-- by `String`, which is a parameter where the value is neither a text nor null, and so is the test that
-- `Number` gives 1. The errors are without the ids that their texts name.
pub mod Rooted
pub mod Targets
use tuixiu.Prelude.{
  ℕ, zero, suc, ◌+◌, ◌-◌, ◌≤◌, ◌<◌, String, Option, none, some, Bool, true, false, List, [], ◌∷◌,
  ◌++◌, arith, leb, ltb, eqb, ◌||◌, ◌&&◌, length, refl, ◌≡◌, ◌≢◌, inl, inr, Bool-cases,
  Option-cases, if◌then◌else◌, and_true, ◌∙◌, ap, sym, subst, ◌==◌, not, eqb_iff, eq_iff, eq_refl,
  map, is_some, ◌<|◌, All, ◌⊎◌, any, all, find, select,
}
use Prim.Native.Char.{code}
use Prim.Native.String
use tuixiu.Prelude.{trim, is_empty, same, begins_with, codes}
use tuixiu.Json.{Value, Fields, Items, obj, arr, str, null, field, end, nil, cons, prop, as_record}
use tuixiu.Runs.EnvText.{Env, set_env}
use tuixiu.Proxy.Zip.{
  posix_normalize, begins_with_slash, contains, parent, Segment, joined, onto, split_segments,
  enter_all,
}

pub data TargetRoot : Type 0 where
  workspace user_home : TargetRoot

pub data Apply : Type 0 where
  bind_mount download_extract write_file copy : Apply

pub data Access : Type 0 where
  read_only read_write : Access

pub data Source : Type 0 where
  host_path : String → Source
  http_zip : (uri : String) → (content_hash : Option String) → Source
  inline_text : String → Source

pub record AgentInputItem : Type 0 where
  pub id : String
  pub apply : Apply
  pub access : Option Access
  pub source : Source
  pub root : TargetRoot
  pub path : String

pub record AgentInputsManifest : Type 0 where
  pub env_patch : Option Env
  pub items : List AgentInputItem

pub data InputsError : Type 0 where
  invalid_inputs unsupported_version invalid_items invalid_env_patch invalid_env_patch_key :
      InputsError
  invalid_item invalid_item_id invalid_item_apply invalid_item_access invalid_item_target :
      InputsError
  invalid_item_target_root target_not_relative target_escapes_root invalid_item_source : InputsError
  invalid_host_path invalid_uri invalid_source_type : InputsError

pub data Parsed (A : Type 0) : Type 0 where
  ok : A → Parsed A
  refused : InputsError → Parsed A

infixl 5 ◌>>=◌ ◌>>◌
abbrev pub ◌>>=◌ : {A B : Type 0} → Parsed A → (A → Parsed B) → Parsed B
ok a >>= f = f a
refused e >>= f = refused e

abbrev pub ◌>>◌ : {A B : Type 0} → Parsed A → Parsed B → Parsed B
m >> k = m >>= λ _. k

abbrev pub require : {A : Type 0} → InputsError → Option A → Parsed A
require e none = refused e
require e (some a) = ok a

abbrev pub guard : InputsError → Bool → Parsed (Unit {0})
guard e true = ok tt
guard e false = refused e

-- `s.replaceAll("\\", "/")`
unfoldable pub with_slashes : String → String
with_slashes String.[] = String.[]
with_slashes (String.◌∷◌ c s) = String.◌∷◌ (if eqb (code c) 92 then "/" else c) (with_slashes s)

-- The tests of a normal form.
abbrev pub escapes : List ℕ → Bool
escapes n =
    same n parent || begins_with n (46 ∷ 46 ∷ 47 ∷ []) || contains (47 ∷ 46 ∷ 46 ∷ 47 ∷ []) n

unfoldable pub assert_relative_posix_path : String → Parsed (Unit {0})
unfolding with_slashes
assert_relative_posix_path p =
    let raw = codes (trim (with_slashes p)) in
    let n = posix_normalize raw in
    if same raw []
    then ok tt
    else if begins_with_slash raw
    then refused target_not_relative
    else if same n (46 ∷ []) || same n []
    then ok tt
    else if escapes n
    then refused target_escapes_root
    else ok tt

unfoldable pub parse_apply : String → Option Apply
parse_apply s =
    if s == "bindMount"
    then some bind_mount
    else if s == "downloadExtract"
    then some download_extract
    else if s == "writeFile"
    then some write_file
    else if s == "copy"
    then some copy
    else none

unfoldable pub parse_root : String → Option TargetRoot
parse_root s =
    if s == "WORKSPACE" then some workspace else if s == "USER_HOME" then some user_home else none

abbrev access_named : String → Parsed (Option Access)
access_named s =
    if s == "ro"
    then ok (some read_only)
    else if s == "rw"
    then ok (some read_write)
    else refused invalid_item_access

abbrev hash_of : Option Value → Option String
hash_of (some (str s)) = if is_empty s then none else some s
hash_of _ = none

module _ (to_text : Value → String) (is_one : Option Value → Bool) where
  -- `String(v ?? "")`
  abbrev pub string_of : Option Value → String
  string_of none = ""
  string_of (some null) = ""
  string_of (some (str s)) = s
  string_of (some v) = to_text v

  abbrev pub trimmed : Option Value → String
  trimmed v = trim (string_of v)

  abbrev pub parse_access : Option Value → Parsed (Option Access)
  parse_access none = ok none
  parse_access (some null) = ok none
  parse_access (some v) = access_named (trimmed (some v))

  unfoldable pub parse_source : Option Value → Parsed Source
  parse_source v =
      let type = trimmed (prop "type" v) in
      let path = trimmed (prop "path" v) in
      let uri = trimmed (prop "uri" v) in
      if type == "hostPath"
      then if is_empty path then refused invalid_host_path else ok (host_path path)
      else if type == "httpZip"
      then if is_empty uri
        then refused invalid_uri
        else ok (http_zip uri (hash_of (prop "contentHash" v)))
      else if type == "inlineText"
      then ok (inline_text (string_of (prop "text" v)))
      else refused invalid_source_type

  -- the path of a target, as it is stored
  abbrev pub target_text : Option Value → String
  target_text target = trim (with_slashes (string_of (prop "path" target)))

  abbrev pub fields_of : Option Value → Option Fields
  fields_of none = none
  fields_of (some v) = as_record v

  unfoldable pub parse_item : Value → Parsed AgentInputItem
  unfolding parse_apply parse_root assert_relative_posix_path parse_source
  parse_item item = do
    require invalid_item (as_record item)
    let id = trimmed (prop "id" (some item))
    guard invalid_item_id (not (is_empty id))
    apply ← require invalid_item_apply (parse_apply (trimmed (prop "apply" (some item))))
    access ← parse_access (prop "access" (some item))
    let target = prop "target" (some item)
    require invalid_item_target (fields_of target)
    root ← require invalid_item_target_root (parse_root (trimmed (prop "root" target)))
    let path = target_text target
    assert_relative_posix_path path
    require invalid_item_source (fields_of (prop "source" (some item)))
    source ← parse_source (prop "source" (some item))
    ok (record {
      id = id;
      apply = apply;
      access = access;
      source = source;
      root = root;
      path = path;
    })

  unfoldable pub parse_items : Items → Parsed (List AgentInputItem)
  unfolding parse_item
  parse_items nil = ok []
  parse_items (cons first rest) = do
    item ← parse_item first
    items ← parse_items rest
    ok (item ∷ items)

  abbrev is_patch_key : String → Bool
  is_patch_key key = key == "HOME" || key == "USER" || key == "LOGNAME"

  unfoldable pub parse_env_patch : Fields → Env → Parsed Env
  unfolding set_env
  parse_env_patch end out = ok out
  parse_env_patch (field k v rest) out =
      let key = trim k in
      let next = parse_env_patch rest (set_env key (string_of (some v)) out) in
      if is_patch_key key then next else refused invalid_env_patch_key

  abbrev pub patch_of : Option Value → Parsed (Option Env)
  patch_of none = ok none
  patch_of (some null) = ok none
  patch_of (some (obj fields)) = do out ← parse_env_patch fields []; ok (some out)
  patch_of (some v) = refused invalid_env_patch

  abbrev pub items_of : Option Value → Option Items
  items_of (some (arr items)) = some items
  items_of _ = none

  unfoldable pub parse_agent_inputs_from_init : Option Value → Parsed (Option AgentInputsManifest)
  unfolding parse_items parse_env_patch
  parse_agent_inputs_from_init init = elim (prop "agentInputs" init) [
    | none ↦ ok none
    | some raw ↦ do
      require invalid_inputs (as_record raw)
      guard unsupported_version (is_one (prop "version" (some raw)))
      items_raw ← require invalid_items (items_of (prop "items" (some raw)))
      env_patch ← patch_of (prop "envPatch" (some raw))
      items ← parse_items items_raw
      ok (some (record { env_patch = env_patch; items = items }))
  ]
