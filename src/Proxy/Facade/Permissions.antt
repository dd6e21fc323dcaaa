-- ===== src/Proxy/Facade/Permissions.antt =====
-- acp-proxy/src/acpClientFacade.ts: the permissions that an agent asks for. A promise is settled by
-- adding its outcome to the answers; what runs after it only deletes the request, as its settling did.
pub mod Offered
pub mod Counted
use tuixiu.Prelude.{
  ℕ, zero, suc, ◌+◌, ◌-◌, ◌≤◌, ◌<◌, String, Option, none, some, Bool, true, false, List, [], ◌∷◌,
  ◌++◌, arith, leb, ltb, eqb, ◌||◌, ◌&&◌, length, refl, ◌≡◌, ◌≢◌, inl, inr, Bool-cases,
  Option-cases, if◌then◌else◌, and_true, ◌∙◌, ap, sym, subst, ◌==◌, not, eqb_iff, eq_iff, eq_refl,
  map, is_some, ◌<|◌, All, ◌⊎◌, any, all, find, ◌<|>◌, head_or_none,
}
use tuixiu.Prelude.{trim, is_empty}
use tuixiu.Json.{Value, Items, nil, cons, obj, arr, prop, as_string}

pub record PermissionOption : Type 0 where
  pub option_id : String
  pub kind : Option String

pub data PermissionOutcome : Type 0 where
  selected : String → PermissionOutcome
  cancelled : PermissionOutcome

-- what a client decides; the id may be absent
pub data PermissionDecision : Type 0 where
  chosen : Option String → PermissionDecision
  refused : PermissionDecision

abbrev pub Pending : Type 0
Pending = List (String × List PermissionOption)

-- `pendingPermissions`, and the outcomes that were sent, the newest first.
pub record Permissions : Type 0 where
  pub pending : Pending
  pub answers : List (String × PermissionOutcome)

abbrev is_allow_once : PermissionOption → Bool
is_allow_once o = (o.kind <| "") == "allow_once"

-- `options.find((o) => o.kind === "allow_once") ?? options[0] ?? null`
abbrev pub preferred : List PermissionOption → Option PermissionOption
preferred options = find is_allow_once options <|> head_or_none options

unfoldable pub pick_default_permission_outcome : List PermissionOption → PermissionOutcome
pick_default_permission_outcome options = elim (preferred options) [
  | none ↦ cancelled
  | some o ↦ let id = trim o.option_id in if is_empty id then cancelled else selected id
]

-- the outcome of a decision whose id has been trimmed
abbrev pub outcome_of : List PermissionOption → String → PermissionOutcome
outcome_of options id =
    if is_empty id
    then pick_default_permission_outcome options
    else elim (find (λ o. o.option_id == id) options) [
      | some matched ↦ selected matched.option_id
      | none ↦ pick_default_permission_outcome options
    ]

unfoldable pub normalize_permission_decision :
    List PermissionOption → PermissionDecision → PermissionOutcome
normalize_permission_decision options refused = cancelled
normalize_permission_decision options (chosen id) = outcome_of options (trim (id <| ""))

unfoldable pub lookup_pending : String → Pending → Option (List PermissionOption)
lookup_pending id [] = none
lookup_pending id ((key, options) ∷ rest) =
    if key == id then some options else lookup_pending id rest

unfoldable pub delete_pending : String → Pending → Pending
delete_pending id [] = []
delete_pending id ((key, options) ∷ rest) =
    if key == id then rest else (key, options) ∷ delete_pending id rest

abbrev pub answered : String → PermissionOutcome → Permissions → Permissions
answered id outcome s = record s { answers = (id, outcome) ∷ s.answers }

-- A request up to its wait.
unfoldable pub wait_for_permission : String → List PermissionOption → Permissions → Permissions
wait_for_permission request_id [] s = answered request_id cancelled s
wait_for_permission request_id (first ∷ rest) s =
    if is_some (lookup_pending request_id s.pending)
    then answered request_id (pick_default_permission_outcome (first ∷ rest)) s
    else record s { pending = s.pending ++ (request_id, first ∷ rest) ∷ [] }

unfoldable pub resolve_permission : String → PermissionDecision → Permissions → Bool × Permissions
resolve_permission request_id decision s = elim (lookup_pending request_id s.pending) [
  | none ↦ (false, s)
  | some options ↦ (
    true,
    record s {
      pending = delete_pending request_id s.pending;
      answers = (request_id, normalize_permission_decision options decision) ∷ s.answers;
    },
  )
]

unfoldable pub cancel_permission_request : String → Permissions → Bool × Permissions
unfolding resolve_permission
cancel_permission_request request_id s = resolve_permission request_id refused s

unfoldable pub cancel_each :
    Pending → List (String × PermissionOutcome) → List (String × PermissionOutcome)
cancel_each [] answers = answers
cancel_each ((id, options) ∷ rest) answers = cancel_each rest ((id, cancelled) ∷ answers)

unfoldable pub cancel_all_permissions : Permissions → Permissions
unfolding cancel_each
cancel_all_permissions s = record { pending = []; answers = cancel_each s.pending s.answers }

-- the options of a request that are objects with an id
unfoldable pub permission_options : Items → List PermissionOption
permission_options nil = []
permission_options (cons first rest) =
    let others = permission_options rest in
    elim (as_string (prop "optionId" (some first))) [
      | none ↦ others
      | some id ↦ record { option_id = id; kind = as_string (prop "kind" (some first)) } ∷ others
    ]

abbrev pub options_of : Option Value → List PermissionOption
options_of (some (arr items)) = permission_options items
options_of _ = []

-- The request of an agent; `permission_ask` says whether a client is asked.
unfoldable pub request_permission : Bool → String → Option Value → Permissions → Permissions
request_permission permission_ask request_id params s =
    let options = options_of (prop "options" params) in
    if permission_ask
    then wait_for_permission request_id options s
    else answered request_id (pick_default_permission_outcome options) s

-- What happens to the permissions, one after the other.
pub data PermissionEvent : Type 0 where
  asks : String → Option Value → PermissionEvent
  decides : String → PermissionDecision → PermissionEvent
  cancels : String → PermissionEvent
  cancels_all : PermissionEvent

unfoldable pub happen : Bool → PermissionEvent → Permissions → Permissions
unfolding request_permission resolve_permission cancel_permission_request cancel_all_permissions
happen permission_ask (asks id params) s = request_permission permission_ask id params s
happen permission_ask (decides id decision) s = (resolve_permission id decision s).1
happen permission_ask (cancels id) s = (cancel_permission_request id s).1
happen permission_ask cancels_all s = cancel_all_permissions s

unfoldable pub happen_all : Bool → List PermissionEvent → Permissions → Permissions
unfolding happen
happen_all permission_ask [] s = s
happen_all permission_ask (e ∷ rest) s = happen_all permission_ask rest (happen permission_ask e s)

abbrev pub no_permissions : Permissions
no_permissions = record { pending = []; answers = [] }
