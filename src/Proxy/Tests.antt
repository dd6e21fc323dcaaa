-- ===== src/Proxy/Tests.antt =====
-- Archives of a few entries.
use tuixiu.Proxy.Facade.Output.Whole.{append_all-trim_to_byte_limit}
use tuixiu.Proxy.Facade.Output.Cut.{IsCut, trim_to_byte_limit-IsCut}
use tuixiu.Proxy.Facade.GuestPath.Inside.{IsBelow, resolve_workspace_guest_path-IsBelow}
use tuixiu.Proxy.Facade.Permissions.Offered.{IsAnswer, AskedIn, happen_all-IsAnswer}
use tuixiu.Proxy.Facade.Permissions.Counted.{times, times_asked, happen_all-times_asked}
use tuixiu.Proxy.Facade.Permissions.{
  PermissionEvent, asks, happen_all, decides, no_permissions, chosen, cancels_all,
}
use tuixiu.Json.{Value, obj, field, str, arr, end, cons, nil}
use tuixiu.Proxy.Facade.GuestPath.{
  guest_root, resolve_workspace_guest_path, if_below, with_separator, outside,
}
use tuixiu.Proxy.Facade.Output.{
  trim_to_byte_limit, Trimmed, bisect, all_chunks, drop, byte_length, output_byte_limit, shorten,
  append_all, empty_output, as_output,
}
use tuixiu.Proxy.Inputs.Rooted.{IsRooted, parse_agent_inputs_from_init-IsRooted}
use tuixiu.Proxy.Inputs.{
  parse_agent_inputs_from_init, parse_items, parse_item, parse_apply, parse_root, parse_source,
  assert_relative_posix_path, with_slashes, AgentInputItem, write_file, inline_text, workspace,
}
use tuixiu.Proxy.Inputs.Targets.{resolve_host_target_path, is_sub_path, relative, escaped}
use tuixiu.Json.{num, positive, get}
use tuixiu.Prelude.{Bool, false, none, select}
use tuixiu.Proxy.Zip.Inside.{target_path-enter_all}
use tuixiu.Prelude.{
  String, List, [], ◌∷◌, refl, true, ◌≡◌, ◌++◌, ℕ, codes, same, begins_with, Option, All, some,
  trim, eqb, ◌+◌, ◌||◌, ltb,
}
use tuixiu.Proxy.Zip.{
  ZipEntry, Segment, is_zip_slip_path, ZipLimits, posix_normalize, enter_all, enter, split_segments,
  ends_with_slash, joined, contains, target_path,
}

-- `/out`
abbrev out_dir : List Segment
out_dir = codes "out" ∷ []

-- `a/../b.txt`
abbrev winding : List ℕ
winding = codes "a/../b.txt"

target_path-enter_all_example :
    target_path out_dir winding ≡ enter_all true [] (split_segments winding) ++ out_dir
unfolding is_zip_slip_path posix_normalize enter_all enter split_segments ends_with_slash joined
    same begins_with contains
target_path-enter_all_example = target_path-enter_all out_dir winding refl

abbrev small_limits : ZipLimits
small_limits = record { max_entries = 2; max_total_bytes = 10; max_file_bytes = 8 }

abbrev entry : String → ℕ → ZipEntry
entry name size = record {
  file_name = codes name;
  external_file_attributes = 0;
  uncompressed_size = size;
}

-- three units of two bytes each
abbrev accents : List ℕ
accents = 233 ∷ 232 ∷ 234 ∷ []

trim_to_byte_limit-IsCut_example :
    (k : ℕ) × (trim_to_byte_limit accents 5
      ≡ some
          (record { value = drop k accents; truncated = eqb 5 0 || ltb 5 (byte_length accents) }))
    × IsCut 5 accents k
trim_to_byte_limit-IsCut_example = trim_to_byte_limit-IsCut accents 5

-- Only the last two are left.
accents_trimmed :
    trim_to_byte_limit accents 5 ≡ some (record { value = 232 ∷ 234 ∷ []; truncated = true })
unfolding trim_to_byte_limit bisect byte_length drop shorten
accents_trimmed = refl

abbrev output_chunks : List (List ℕ)
output_chunks = codes "npm " ∷ [] ∷ codes "test" ∷ []

append_all-trim_to_byte_limit_example :
    (trimmed : Trimmed) × (trim_to_byte_limit
        (all_chunks output_chunks)
        (output_byte_limit (some 5000))
      ≡ some trimmed)
    × (append_all output_chunks (empty_output (output_byte_limit (some 5000)))
        ≡ some (as_output (output_byte_limit (some 5000)) trimmed))
append_all-trim_to_byte_limit_example = append_all-trim_to_byte_limit (some 5000) output_chunks

resolve_workspace_guest_path-IsBelow_example :
    IsBelow (guest_root "/workspace") (codes "/workspace/b.txt")
unfolding guest_root trim resolve_workspace_guest_path if_below posix_normalize enter_all enter
    split_segments ends_with_slash joined same begins_with with_separator
resolve_workspace_guest_path-IsBelow_example =
    resolve_workspace_guest_path-IsBelow "/workspace" " a/../b.txt " refl refl

-- a path that begins like the root's name
beside_the_root : resolve_workspace_guest_path "/workspace" "/workspace2/x" ≡ outside
unfolding guest_root trim resolve_workspace_guest_path if_below posix_normalize enter_all enter
    split_segments ends_with_slash joined same begins_with with_separator
beside_the_root = refl

abbrev allow_option : Value
allow_option = obj (field "optionId" (str "yes") (field "kind" (str "allow_once") end))

abbrev offer : Option Value
offer = some (obj (field "options" (arr (cons allow_option nil)) end))

abbrev permission_events : List PermissionEvent
permission_events =
    asks "1" offer ∷ asks "2" offer ∷ decides "1" (chosen (some "yes")) ∷ cancels_all ∷ []

happen_all-times_asked_example :
    times "1" (happen_all true permission_events no_permissions).pending
      + times "1" (happen_all true permission_events no_permissions).answers
    ≡ times_asked "1" permission_events
happen_all-times_asked_example = happen_all-times_asked true permission_events "1"

happen_all-IsAnswer_example :
    All
      (IsAnswer (AskedIn permission_events))
      (happen_all true permission_events no_permissions).answers
happen_all-IsAnswer_example = happen_all-IsAnswer true permission_events

abbrev shown : Value → String
shown v = "[object Object]"

abbrev is_version : Option Value → Bool
is_version (some (num (positive n))) = eqb n 1
is_version v = false

abbrev input_at : String → Value
input_at path = obj (
    field "id" (str "notes") (
      field "apply" (str "writeFile") (
        field "target" (obj (field "root" (str "WORKSPACE") (field "path" (str path) end))) (
          field "source" (obj (field "type" (str "inlineText") (field "text" (str "x") end)))
            end))))

abbrev two_inputs : Option Value
two_inputs = some (
    obj (
      field "agentInputs"
        (obj (
          field "version" (num (positive 1)) (
            field "items" (arr (cons (input_at "a/../b.txt") (cons (input_at "..notes") nil)))
              end)))
        end))

abbrev item_at : String → AgentInputItem
item_at path = record {
  id = "notes";
  apply = write_file;
  access = none;
  source = inline_text "x";
  root = workspace;
  path = path;
}

parse_agent_inputs_from_init-IsRooted_example :
    All (IsRooted out_dir) (item_at "a/../b.txt" ∷ item_at "..notes" ∷ [])
unfolding parse_agent_inputs_from_init get parse_items parse_item parse_apply parse_root
    parse_source assert_relative_posix_path with_slashes trim posix_normalize enter_all enter
    split_segments ends_with_slash joined same begins_with contains
parse_agent_inputs_from_init-IsRooted_example =
    parse_agent_inputs_from_init-IsRooted shown is_version two_inputs
      (record { env_patch = none; items = item_at "a/../b.txt" ∷ item_at "..notes" ∷ [] }) out_dir
      refl

-- a name that begins with two dots
two_dots_refused : resolve_host_target_path out_dir "..notes" ≡ escaped
unfolding resolve_host_target_path is_sub_path relative with_slashes trim enter_all enter select
    split_segments joined same begins_with
two_dots_refused = refl
