-- ===== src/Workflow/Resolver.antt =====
-- backend/src/modules/workflow/taskTemplateResolver.ts: the template that a project uses for a key.
use tuixiu.Prelude.{
  ℕ, String, Option, none, some, false, List, [], ◌∷◌, ◌==◌, is_empty, trim, any, codes, same,
  begins_with, folded, if◌then◌else◌, ◌<|◌, ◌<|>◌,
}
use tuixiu.Json
use tuixiu.Json.{Value, Fields, obj, as_record}
use tuixiu.Db.Types.{TaskTrack}
use tuixiu.Workflow.Templates.{TaskTemplateStep, TaskTemplate, get_task_template}

abbrev track_of_codes : List ℕ → Option TaskTrack
track_of_codes v =
    if same v (codes "quick")
    then some TaskTrack.quick
    else if same v (codes "planning")
    then some TaskTrack.planning
    else if same v (codes "enterprise")
    then some TaskTrack.enterprise
    else none

unfoldable pub normalize_task_track : Option String → Option TaskTrack
normalize_task_track value = track_of_codes (folded (value <| ""))

unfoldable pub infer_task_track_from_template_key : String → Option TaskTrack
infer_task_track_from_template_key key =
    let k = folded key in
    if begins_with k (codes "quick.")
    then some TaskTrack.quick
    else if begins_with k (codes "planning.")
    then some TaskTrack.planning
    else if begins_with k (codes "enterprise.")
    then some TaskTrack.enterprise
    else none

-- a value that `taskTemplateOverrideSchema` accepts
pub record TaskTemplateOverride : Type 0 where
  pub display_name : Option String
  pub description : Option String
  pub track : Option TaskTrack
  pub steps : List TaskTemplateStep

abbrev pub Overrides : Type 0
Overrides = List (String × TaskTemplateOverride)

pub data TemplateSource : Type 0 where
  default project : TemplateSource

pub record ResolvedTemplate : Type 0 where
  pub template : TaskTemplate
  pub source : TemplateSource

-- What `overrides[key]` reads from an object: a property of its own, or one that every object
-- inherits from `Object.prototype`.
pub data Property : Type 0 where
  own : TaskTemplateOverride → Property
  inherited : Property

abbrev pub prototype_keys : List String
prototype_keys =
    "constructor" ∷ "__defineGetter__" ∷ "__defineSetter__" ∷ "hasOwnProperty" ∷ "__lookupGetter__"
    ∷ "__lookupSetter__" ∷ "isPrototypeOf" ∷ "propertyIsEnumerable" ∷ "toString" ∷ "valueOf"
    ∷ "__proto__" ∷ "toLocaleString" ∷ []

unfoldable pub property : String → Overrides → Option Property
property key [] = if any (λ k. k == key) prototype_keys then some inherited else none
property key ((k, o) ∷ rest) = if k == key then some (own o) else property key rest

-- the zod schema `taskTemplateOverridesSchema` is used by its `safeParse`, which may refuse
module _ (safe_parse : Value → Option Overrides) where
  unfoldable pub overrides_of_branch_protection : Value → Option Overrides
  overrides_of_branch_protection branch_protection = elim (as_record branch_protection) [
    | none ↦ none
    | some fields ↦ elim (Json.get "taskTemplates" fields) [
      | some (obj candidate) ↦ safe_parse (obj candidate)
      | _ ↦ none
    ]
  ]

  -- the template with the override's fields before the built-in one's
  unfoldable pub template_of_override : String → Property → Option TaskTemplate → TaskTemplate
  template_of_override key (own o) base = record {
    key = key;
    display_name =
        o.display_name <|> (elim base [ none ↦ none | some b ↦ some b.display_name ]) <| key;
    description = o.description <|> (elim base [ none ↦ none | some b ↦ b.description ]);
    track =
        o.track
        <|> (elim base [ none ↦ none | some b ↦ b.track ])
        <|> infer_task_track_from_template_key key;
    deprecated = false;
    steps = some o.steps;
  }
  template_of_override key inherited base = record {
    key = key;
    display_name = (elim base [ none ↦ none | some b ↦ some b.display_name ]) <| key;
    description = elim base [ none ↦ none | some b ↦ b.description ];
    track =
        (elim base [ none ↦ none | some b ↦ b.track ]) <|> infer_task_track_from_template_key key;
    deprecated = false;
    steps = none;
  }

  unfoldable pub resolve_task_template_for_project : String → Value → Option ResolvedTemplate
  unfolding overrides_of_branch_protection template_of_override
  resolve_task_template_for_project raw_key branch_protection =
      let key = trim raw_key in
      let base = get_task_template key in
      let found : Option Property = elim (overrides_of_branch_protection branch_protection) [
        | none ↦ none
        | some overrides ↦ property key overrides
      ] in
      if is_empty key then none else elim found [
        | none ↦ elim base [
          | none ↦ none
          | some b ↦ some (record { template = b; source = default })
        ]
        | some o ↦ some (record { template = template_of_override key o base; source = project })
      ]
