-- ===== src/Scm/Laws.antt =====
-- Updating the columns that follow a pull request.
use tuixiu.Prelude.{
  ℕ, Option, none, some, Bool, true, false, ◌≡◌, refl, ◌||◌, is_some, if◌then◌else◌, ◌<|◌,
}
use tuixiu.Scm.{
  provider_of, text_or_null, whole_or_null, pr_state_of, ci_status_of, Field, on_value,
  RunScmStatePatch, RunScmState, has_any_field, update_run_scm_state, build_run_scm_state_update,
  normalize_optional_date, normalize_scm_provider, normalize_optional_string,
  normalize_optional_int, normalize_scm_pr_state, normalize_scm_ci_status,
}

keep_twice : {A : Type 0} (f : Field A) (a : Option A) → (f <| (f <| a)) ≡ (f <| a)
keep_twice none a = refl
keep_twice (some b) a = refl

-- Applying a patch to the columns of a run a second time, at the same time, changes nothing.
pub update_run_scm_state_twice :
    (now : ℕ) (p : RunScmStatePatch) (s : RunScmState)
    → update_run_scm_state now p (update_run_scm_state now p s) ≡ update_run_scm_state now p s
unfolding update_run_scm_state
update_run_scm_state_twice now p s =
    let u = build_run_scm_state_update now p in
    λ i. record {
      provider = keep_twice u.provider s.provider i;
      head_sha = keep_twice u.head_sha s.head_sha i;
      pr_number = keep_twice u.pr_number s.pr_number i;
      pr_url = keep_twice u.pr_url s.pr_url i;
      pr_state = keep_twice u.pr_state s.pr_state i;
      ci_status = keep_twice u.ci_status s.ci_status i;
      updated_at = keep_twice u.updated_at s.updated_at i;
    }

given : {A B : Type 0} (f : A → Option B) (v : Field A) → is_some (on_value f v) ≡ is_some v
given f none = refl
given f (some none) = refl
given f (some (some a)) = refl

has_any_field_lem :
    (p : RunScmStatePatch)
    → has_any_field p ≡ (
        is_some p.scm_provider
        || is_some p.scm_head_sha
        || is_some p.scm_pr_number
        || is_some p.scm_pr_url
        || is_some p.scm_pr_state
        || is_some p.scm_ci_status)
unfolding has_any_field normalize_scm_provider normalize_optional_string normalize_optional_int
    normalize_scm_pr_state normalize_scm_ci_status
has_any_field_lem p =
    rw
      (
        given provider_of p.scm_provider,
        given text_or_null p.scm_head_sha,
        given whole_or_null p.scm_pr_number,
        given text_or_null p.scm_pr_url,
        given pr_state_of p.scm_pr_state,
        given ci_status_of p.scm_ci_status,
      )
      refl

dated :
    (b : Bool) (now : ℕ) (old : Option ℕ)
    → ((if b then some (some now) else none) <| old) ≡ (if b then some now else old)
dated true now old = refl
dated false now old = refl

-- Where the patch gives no date, the date of the columns becomes the present time if the patch gives
-- any other field, be it null or refused, and stays as it was otherwise.
pub update_run_scm_state-updated_at :
    (now : ℕ) (p : RunScmStatePatch) (s : RunScmState)
    → p.scm_updated_at ≡ none
    → (update_run_scm_state now p s).updated_at ≡ (
        if is_some p.scm_provider
          || is_some p.scm_head_sha
          || is_some p.scm_pr_number
          || is_some p.scm_pr_url
          || is_some p.scm_pr_state
          || is_some p.scm_ci_status
        then some now
        else s.updated_at)
unfolding update_run_scm_state build_run_scm_state_update normalize_optional_date has_any_field
update_run_scm_state-updated_at now p s undated =
    rw (undated, has_any_field_lem p) (dated _ now s.updated_at)
