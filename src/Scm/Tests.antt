-- ===== src/Scm/Tests.antt =====
-- The theorems of the component at concrete data.
use tuixiu.Prelude.{none, some}
use tuixiu.Json.{positive}
use tuixiu.Scm.{RunScmStatePatch, RunScmState, text}

abbrev ci_patch : RunScmStatePatch
ci_patch = record {
  scm_provider = none;
  scm_head_sha = some none;
  scm_pr_number = some (some (positive 12));
  scm_pr_url = none;
  scm_pr_state = some (some " Opened ");
  scm_ci_status = some (some (text "success"));
  scm_updated_at = none;
}

abbrev old_state : RunScmState
old_state = record {
  provider = none;
  head_sha = some "abc";
  pr_number = none;
  pr_url = some "u";
  pr_state = none;
  ci_status = none;
  updated_at = some 1;
}
