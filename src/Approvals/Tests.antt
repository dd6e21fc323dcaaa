-- ===== src/Approvals/Tests.antt =====
-- The theorems of the component at concrete data.
use tuixiu.Prelude.{ℕ, String, Option, none, some, ◌≡◌, refl, find, trim, select, arith}
use tuixiu.Db.Types.{Project, Db}
use tuixiu.Demo.{demo_run, demo_db}
use tuixiu.Approvals.{
  Outcome, ApprovalSummary, accepted, extract_pr_url, ask_merge, request_approval,
  request_merge_pr_approval, request_create_pr_approval, request_publish_artifact_approval,
}
use tuixiu.Approvals.Idempotent.{given}
use tuixiu.Approvals.Live.{AtMostOneLive, request_approval-AtMostOneLive}
use tuixiu.Approvals.Requests.{request_merge_pr_approval_again}

abbrev demo_iso : ℕ → String
demo_iso t = "2026"

abbrev demo_token : Option Project → String
demo_token p = "token"

first_merge : Outcome × Db
first_merge = request_merge_pr_approval demo_iso demo_token "m1" 10 "r0" none none none demo_db

request_merge_pr_approval_again_example :
    (s : ApprovalSummary) × (first_merge.0.reply ≡ accepted s)
    × (request_merge_pr_approval demo_iso demo_token "m2" 11 "r0" (some "u") none none first_merge.1
        ≡ (given s, first_merge.1))
unfolding find extract_pr_url trim first_merge
request_merge_pr_approval_again_example =
    request_merge_pr_approval_again demo_iso demo_token "m1" "m2" 10 11 "r0" none (some "u") none
      none none none demo_db refl refl

first_create : Outcome × Db
first_create =
    request_create_pr_approval demo_iso demo_token "m1" 10 "r0" none none none none none demo_db

first_publish : Outcome × Db
first_publish =
    request_publish_artifact_approval demo_iso demo_token "m1" 10 "x1" none none none demo_db

none_live : AtMostOneLive demo_db.approvals
unfolding select
none_live run_id action = omega arith

request_approval-AtMostOneLive_example :
    AtMostOneLive
      (request_approval demo_iso demo_token "m1" 10 none
        (ask_merge none none "u")
        demo_run
        demo_db).1.approvals
request_approval-AtMostOneLive_example =
    request_approval-AtMostOneLive demo_iso demo_token "m1" 10 none (ask_merge none none "u")
      demo_run demo_db none_live
