-- ===== src/Run/Options.antt =====
-- What a run is asked for: the thinking level, the model and web search
-- (frontend/src/runs/thinkingLevel.ts, modelPreference.ts, webSearchPreference.ts, runOptions.ts).
-- `localStorage` is modelled by the three items that these stores keep in it, and the variables of
-- the modules are fields beside them. `raw in LEGACY_LEVELS` is the test for the one key that the
-- table has of its own.
use ichat.Base.{
  Bool, true, false, not, ◌&&◌, Option, none, some, List, [], ◌∷◌, Text, find, filter, includes,
  text_eq, option_is, is_empty, or_else, or_option, codes, if◌then◌else◌,
}
use ichat.Api.Types.{
  ChatModelCapability, ImageContext, ImageContextState, no_images, vision_required,
}

pub data ThinkingLevel : Type 0 where
  low medium high xhigh max : ThinkingLevel

pub record RunOptionsRequest : Type 0 where
  pub thinking_enabled : Bool
  pub reasoning_effort : ThinkingLevel
  pub web_search_enabled : Option Bool
  pub model : Option Text

-- The string of a level.
abbrev pub level_text : ThinkingLevel → Text
level_text low = codes "low"
level_text medium = codes "medium"
level_text high = codes "high"
level_text xhigh = codes "xhigh"
level_text max = codes "max"

-- `THINKING_LEVEL_OPTIONS`, without the labels.
abbrev pub levels : List ThinkingLevel
levels = low ∷ medium ∷ high ∷ xhigh ∷ max ∷ []

-- The level that a string stands for: `LEVELS.includes(raw) ? raw as ThinkingLevel`.
unfoldable pub level_of : Text → Option ThinkingLevel
unfolding text_eq
level_of raw = find (λ l. text_eq (level_text l) raw) levels

-- `clampThinkingLevel`.
unfoldable pub clamp_thinking_level : ThinkingLevel → List Text → ThinkingLevel
unfolding level_of text_eq
clamp_thinking_level level [] = level
clamp_thinking_level level (first ∷ rest) =
    if includes (first ∷ rest) (level_text level)
    then level
    else if includes (first ∷ rest) (codes "high")
    then high
    else or_else (level_of first) level

-- `toRunOptions`.
unfoldable pub to_run_options : ThinkingLevel → Option Bool → Option Text → RunOptionsRequest
to_run_options level web_search_enabled model = record {
  thinking_enabled = true;
  reasoning_effort = level;
  web_search_enabled = web_search_enabled;
  model = model;
}

pub record Preferences : Type 0 where
  pub stored_level : Option Text
  pub stored_model : Option Text
  pub stored_web_search : Option Text
  pub available_models : List ChatModelCapability
  pub capability_enabled : Bool

-- `LEGACY_LEVELS[raw]`.
unfoldable pub legacy_level : Text → Option ThinkingLevel
unfolding text_eq
legacy_level raw = if text_eq raw (codes "fast") then some low else none

-- `thinkingLevelStore.read`.
unfoldable pub read_level : Preferences → ThinkingLevel
unfolding level_of legacy_level
read_level p = elim p.stored_level [
  | none ↦ low
  | some raw ↦ or_else (or_option (level_of raw) (legacy_level raw)) low
]

-- `thinkingLevelStore.save`.
unfoldable pub save_level : ThinkingLevel → Preferences → Preferences
save_level level p = record p { stored_level = some (level_text level) }

-- `modelPreferenceStore.save` and `setAvailable`.
unfoldable pub save_model : Text → Preferences → Preferences
save_model model_id p = record p { stored_model = some model_id }

unfoldable pub set_available : List ChatModelCapability → Preferences → Preferences
set_available models p = record p { available_models = models }

abbrev pub head? : List ChatModelCapability → Option ChatModelCapability
head? [] = none
head? (m ∷ ms) = some m

abbrev pub id_of : Option ChatModelCapability → Option Text
id_of none = none
id_of (some m) = some m.id

-- `model.id === id`, where `id` may be null.
abbrev pub model_is : Option Text → ChatModelCapability → Bool
model_is id model = option_is id model.id

-- `modelPreferenceStore.resolve`.
unfoldable pub resolve : Preferences → Option ChatModelCapability
resolve p =
    or_option (find (model_is p.stored_model) p.available_models)
      (or_option (find (λ m. m.default) p.available_models) (head? p.available_models))

-- `modelPreferenceStore.requestModel`.
unfoldable pub request_model : Preferences → Option Text
unfolding resolve
request_model p = id_of (resolve p)

-- `modelPreferenceStore.supportsImages`.
unfoldable pub supports_images : Option Text → Preferences → Bool
supports_images id p = elim (find (model_is id) p.available_models) [
  | none ↦ false
  | some m ↦ m.supports_image_input
]

-- Whether a model fits the images of the conversation.
abbrev pub is_compatible : ImageContextState → ChatModelCapability → Bool
is_compatible vision_required m = m.supports_image_input
is_compatible _ m = not m.supports_image_input

-- The recommended model, where it fits.
unfoldable pub recommended : ImageContext → List ChatModelCapability → Option ChatModelCapability
recommended context compatible = elim context.recommended_model [
  | none ↦ none
  | some id ↦ if is_empty id then none else find (model_is (some id)) compatible
]

-- `modelPreferenceStore.resolveForImageContext` once the context asks for a kind of model.
unfoldable pub resolve_compatible :
    ImageContextState → ImageContext → Preferences → Option ChatModelCapability
unfolding recommended
resolve_compatible state context p =
    let compatible = filter (is_compatible state) p.available_models in
    if is_empty compatible
    then none
    else or_option (recommended context compatible)
        (or_option (find (model_is p.stored_model) compatible) (head? compatible))

unfoldable pub resolve_in :
    ImageContextState → ImageContext → Preferences → Option ChatModelCapability
unfolding resolve resolve_compatible
resolve_in no_images context p = resolve p
resolve_in state context p = resolve_compatible state context p

-- `modelPreferenceStore.resolveForImageContext`.
unfoldable pub resolve_for_image_context :
    Option ImageContext → Preferences → Option ChatModelCapability
unfolding resolve resolve_in
resolve_for_image_context none p = resolve p
resolve_for_image_context (some context) p = resolve_in context.state context p

-- `webSearchPreferenceStore`: `save`, `setCapability`, `read` and `requestEnabled`.
unfoldable pub save_web_search : Bool → Preferences → Preferences
save_web_search enabled p = record p {
  stored_web_search = some (if enabled then codes "true" else codes "false");
}

unfoldable pub set_capability : Bool → Preferences → Preferences
set_capability enabled p = record p { capability_enabled = enabled }

unfoldable pub read_web_search : Preferences → Bool
unfolding text_eq
read_web_search p = option_is p.stored_web_search (codes "true")

unfoldable pub request_enabled : Preferences → Bool
unfolding read_web_search
request_enabled p = p.capability_enabled && read_web_search p

abbrev pub levels_of : Option ChatModelCapability → List Text
levels_of none = []
levels_of (some m) = m.thinking_levels

-- The model whose levels `currentRunOptions` clamps to.
unfoldable pub chosen_model : Option Text → Preferences → Option ChatModelCapability
unfolding resolve
chosen_model none p = resolve p
chosen_model (some id) p = find (model_is (some id)) p.available_models

-- `currentRunOptions`.
unfoldable pub current_run_options : Option Text → Preferences → RunOptionsRequest
unfolding chosen_model clamp_thinking_level read_level request_enabled to_run_options
current_run_options model_id p =
    let model = chosen_model model_id p in
    to_run_options (clamp_thinking_level (read_level p) (levels_of model))
      (some (request_enabled p)) (or_option model_id (id_of model))
