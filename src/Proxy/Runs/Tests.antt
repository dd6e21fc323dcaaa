-- ===== src/Proxy/Runs/Tests.antt =====
-- The openings of a run by its messages.
use tuixiu.Prelude.{
  ℕ, String, Option, none, some, List, [], ◌∷◌, refl, ◌≡◌, ltb, all, any, if◌then◌else◌, trim,
  codes, select,
}
use tuixiu.Acp.Chunks.{utf16_length}
use tuixiu.Workflow.Engine.{derive_sandbox_instance_name}
use tuixiu.Proxy.Runs.{
  validate_run_id, validate_instance_name, valid, invalid, instance_name_for,
  instance_name_too_long, instance_name_invalid, is_name_code, find_run, put_run, delete_run,
  get_or_create, open_run, OpenMessage, keepalive_of, new_runtime, RunEvent, opens, removes,
  run_step, run_steps,
}
use tuixiu.Proxy.Runs.Names.{validate_instance_name-derive_sandbox_instance_name}
use tuixiu.Proxy.Runs.Held.{IsHeld, run_steps-IsHeld}
use tuixiu.Proxy.Runs.Kept.{Keeps, run_steps-Keeps}

validate_instance_name-derive_sandbox_instance_name_example :
    validate_instance_name (derive_sandbox_instance_name " r1 ") ≡ (
      if ltb 189 (utf16_length (trim " r1 "))
      then invalid instance_name_too_long
      else if all is_name_code (codes (trim " r1 "))
      then valid (derive_sandbox_instance_name " r1 ")
      else invalid instance_name_invalid)
validate_instance_name-derive_sandbox_instance_name_example =
    validate_instance_name-derive_sandbox_instance_name " r1 "

abbrev open_message : String → Option String → Option ℕ → OpenMessage
open_message run_id name ttl = record {
  message_run_id = run_id;
  message_instance_name = name;
  message_ttl = ttl;
}

-- The second opening asks for another sandbox.
abbrev run_events : List RunEvent
run_events =
    opens 1 2 (open_message " r1 " none (some 5))
    ∷ opens 3 4 (open_message "r1" (some "other") none)
    ∷ removes "r2"
    ∷ []

run_steps-IsHeld_example : IsHeld ("r1", new_runtime 2 "r1" "tuixiu-run-r1" 60)
unfolding run_steps run_step open_run get_or_create validate_run_id validate_instance_name
    instance_name_for keepalive_of find_run put_run delete_run select any all utf16_length trim
run_steps-IsHeld_example = run_steps-IsHeld run_events "r1" refl

run_steps-Keeps_example :
    Keeps "r1"
      (new_runtime 2 "r1" "tuixiu-run-r1" 60)
      (run_steps run_events (("r1", new_runtime 2 "r1" "tuixiu-run-r1" 60) ∷ []))
unfolding find_run any
run_steps-Keeps_example =
    run_steps-Keeps "r1" (new_runtime 2 "r1" "tuixiu-run-r1" 60) run_events
      (("r1", new_runtime 2 "r1" "tuixiu-run-r1" 60) ∷ []) refl refl
