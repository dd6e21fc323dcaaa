-- ===== src/Scm.antt =====
-- backend/src/modules/scm/runScmState.ts: the columns of a run that follow its pull request. A field
-- of a patch is absent (undefined), null, or a value.
pub mod Laws
mod Tests
use tuixiu.Db.Types.{ScmCiStatus}
use tuixiu.Prelude.{
  ℕ, String, Option, none, some, Bool, true, false, List, [], ◌∷◌, ◌||◌, is_empty, trim, codes,
  same, folded, any, if◌then◌else◌, is_some, ◌<|◌, ◌<|>◌,
}
use tuixiu.Json.{Number, not_finite, not_positive, positive}

pub data ScmProvider : Type 0 where
  github gitlab : ScmProvider

pub data ScmPrState : Type 0 where
  open_pr closed merged : ScmPrState

-- `undefined`, `null` or a value
abbrev pub Field : Type 0 → Type 0
Field A = Option (Option A)

pub data CiValue : Type 0 where
  flag : Bool → CiValue
  text : String → CiValue

-- a `Date`, which may be invalid
pub data DateValue : Type 0 where
  invalid : DateValue
  at : ℕ → DateValue

pub record RunScmStatePatch : Type 0 where
  pub scm_provider : Field String
  pub scm_head_sha : Field String
  pub scm_pr_number : Field Number
  pub scm_pr_url : Field String
  pub scm_pr_state : Field String
  pub scm_ci_status : Field CiValue
  pub scm_updated_at : Field DateValue

-- the `data` of the update: the columns that it names, with their values
pub record RunScmStateUpdate : Type 0 where
  pub provider : Field ScmProvider
  pub head_sha : Field String
  pub pr_number : Field ℕ
  pub pr_url : Field String
  pub pr_state : Field ScmPrState
  pub ci_status : Field ScmCiStatus
  pub updated_at : Field ℕ

-- the columns of the run
pub record RunScmState : Type 0 where
  pub provider : Option ScmProvider
  pub head_sha : Option String
  pub pr_number : Option ℕ
  pub pr_url : Option String
  pub pr_state : Option ScmPrState
  pub ci_status : Option ScmCiStatus
  pub updated_at : Option ℕ

-- `undefined` and `null` are kept
abbrev pub on_value : {A B : Type 0} → (A → Option B) → Field A → Field B
on_value f none = none
on_value f (some none) = some none
on_value f (some (some a)) = some (f a)

abbrev pub text_or_null : String → Option String
text_or_null s = let t = trim s in if is_empty t then none else some t

unfoldable pub normalize_optional_string : Field String → Field String
normalize_optional_string v = on_value text_or_null v

abbrev pub whole_or_null : Number → Option ℕ
whole_or_null not_finite = none
whole_or_null not_positive = none
whole_or_null (positive whole) = some whole

unfoldable pub normalize_optional_int : Field Number → Field ℕ
normalize_optional_int v = on_value whole_or_null v

abbrev one_of : List String → List ℕ → Bool
one_of words v = any (λ w. same v (codes w)) words

abbrev pub provider_of : String → Option ScmProvider
provider_of s =
    let v = folded s in
    if same v (codes "github")
    then some github
    else if same v (codes "gitlab")
    then some gitlab
    else none

unfoldable pub normalize_scm_provider : Field String → Field ScmProvider
normalize_scm_provider v = on_value provider_of v

abbrev pub pr_state_of : String → Option ScmPrState
pr_state_of s =
    let v = folded s in
    if one_of ("open" ∷ "opened" ∷ []) v
    then some open_pr
    else if one_of ("closed" ∷ []) v
    then some closed
    else if one_of ("merged" ∷ "merge" ∷ []) v
    then some merged
    else none

unfoldable pub normalize_scm_pr_state : Field String → Field ScmPrState
normalize_scm_pr_state v = on_value pr_state_of v

abbrev pub ci_status_of : CiValue → Option ScmCiStatus
ci_status_of (flag true) = some ScmCiStatus.passed
ci_status_of (flag false) = some ScmCiStatus.failed
ci_status_of (text s) =
    let v = folded s in
    if one_of ("passed" ∷ "pass" ∷ "success" ∷ "succeeded" ∷ []) v
    then some ScmCiStatus.passed
    else if one_of ("failed" ∷ "fail" ∷ "failure" ∷ "cancelled" ∷ "canceled" ∷ "timed_out" ∷ []) v
    then some ScmCiStatus.failed
    else if one_of ("pending" ∷ "in_progress" ∷ "queued" ∷ "waiting" ∷ []) v
    then some ScmCiStatus.pending
    else none

unfoldable pub normalize_scm_ci_status : Field CiValue → Field ScmCiStatus
normalize_scm_ci_status v = on_value ci_status_of v

abbrev date_of : DateValue → Option ℕ
date_of invalid = none
date_of (at t) = some t

unfoldable pub normalize_optional_date : Field DateValue → Field ℕ
normalize_optional_date v = on_value date_of v

-- some column besides the date is given
unfoldable pub has_any_field : RunScmStatePatch → Bool
has_any_field p =
    is_some (normalize_scm_provider p.scm_provider)
    || is_some (normalize_optional_string p.scm_head_sha)
    || is_some (normalize_optional_int p.scm_pr_number)
    || is_some (normalize_optional_string p.scm_pr_url)
    || is_some (normalize_scm_pr_state p.scm_pr_state)
    || is_some (normalize_scm_ci_status p.scm_ci_status)

unfoldable pub build_run_scm_state_update : ℕ → RunScmStatePatch → RunScmStateUpdate
build_run_scm_state_update now p = record {
  provider = normalize_scm_provider p.scm_provider;
  head_sha = normalize_optional_string p.scm_head_sha;
  pr_number = normalize_optional_int p.scm_pr_number;
  pr_url = normalize_optional_string p.scm_pr_url;
  pr_state = normalize_scm_pr_state p.scm_pr_state;
  ci_status = normalize_scm_ci_status p.scm_ci_status;
  updated_at =
      normalize_optional_date p.scm_updated_at
      <|> (if has_any_field p then some (some now) else none);
}

-- `run.update({ data })` on the columns. An update without columns is not sent, which leaves them.
unfoldable pub update_run_scm_state : ℕ → RunScmStatePatch → RunScmState → RunScmState
update_run_scm_state now p s =
    let data_ = build_run_scm_state_update now p in
    record {
      provider = data_.provider <| s.provider;
      head_sha = data_.head_sha <| s.head_sha;
      pr_number = data_.pr_number <| s.pr_number;
      pr_url = data_.pr_url <| s.pr_url;
      pr_state = data_.pr_state <| s.pr_state;
      ci_status = data_.ci_status <| s.ci_status;
      updated_at = data_.updated_at <| s.updated_at;
    }
