-- ===== src/Tests/Parts.antt =====
-- Sign-out, sources and the model catalog on concrete values.
use Prim.Native.Nat.{compare, Ordering}
use ichat.Base.{
  ℕ, zero, suc, ◌≡◌, refl, true, false, ◌&&◌, none, some, List, [], ◌∷◌, Text, codes, any, filter,
  find, text_eq, ◌%◌, starts_with,
}
use ichat.Api.Types.{MessageResponse, MessageRole, MessageSource}
use ichat.App.Slices.{initial_auth_state}
use ichat.App.Store.{initial_state}
use ichat.Auth.Hook.{Browser, sign_out, on_auth_expired}
use ichat.Auth.SignOut.{is_other, sign_out_forgets}
use ichat.Messages.Sources.{has_source_id, all_sources, conversation_sources}
use ichat.Messages.Resolved.{resolved, conversation_sources-resolved}
use ichat.Messages.Math.{concat, count_outside, clamp_streaming_math}
use ichat.Messages.Clamped.{kept_parts, clamp_streaming_math-closed}
use ichat.ModelAdmin.Catalog.{
  ModelAdminChatModel, ModelAdminRoute, ModelAdminCatalog, is_model_route, routes_of_model,
}
use ichat.ModelAdmin.Routes.{is_sorted, routes_of_model-is_sorted}
use ichat.Search.VisibleText.{Node, text_node, element, no_nodes, node, build_visible_search_text}
use ichat.Search.Points.{IsAligned, build_visible_search_text-IsAligned}
use ichat.Tests.Data.{unit_date, run, index, message}

abbrev browser : Browser
browser = record {
  state = record initial_state { active_run = some run; conversation_index = index };
  stored = none;
  drafts = (codes "ichat.file-draft.v1:1:new", codes "x") ∷ (codes "theme", codes "dark") ∷ [];
  stream_aborted = false;
}

sign_out_forgets_example :
    let left : Browser = record {
      state = record initial_state { auth = record initial_auth_state { bootstrapped = true } };
      stored = none;
      drafts = filter is_other browser.drafts;
      stream_aborted = true;
    } in
    (sign_out unit_date browser ≡ left)
    × (on_auth_expired unit_date (record browser { stored = none }) ≡ left)
sign_out_forgets_example = sign_out_forgets unit_date browser (unfold text_eq in (refl, (refl, tt)))

abbrev source : ℕ → Text → MessageSource
source id url = record {
  id = id;
  title = codes "t";
  url = url;
  snippet = none;
  published_at = none;
  provider = none;
}

abbrev thread : List MessageResponse
thread =
    record (message (codes "m") MessageRole.assistant none) {
      metadata =
          some (record { sources = some (source 1 (codes "a") ∷ source 2 (codes "b") ∷ []) });
    }
    ∷ record (message (codes "n") MessageRole.assistant none) {
      metadata = some (record { sources = some (source 1 (codes "c") ∷ []) });
    }
    ∷ []

conversation_sources-resolved_example :
    find (has_source_id 1) (conversation_sources thread) ≡ resolved 1 (all_sources thread)
conversation_sources-resolved_example = conversation_sources-resolved 1 thread

abbrev collate : Text → Text → Ordering
collate [] t = Ordering.eq
collate (a ∷ s) [] = Ordering.gt
collate (a ∷ s) (b ∷ t) = compare a b

abbrev chat_model : ModelAdminChatModel
chat_model = record {
  ref = codes "m";
  key = codes "k";
  label = codes "l";
  enabled = true;
  archived = false;
  archived_at = none;
}

abbrev route : Text → ℕ → ModelAdminRoute
route ref priority = record {
  ref = ref;
  model_ref = codes "m";
  upstream_ref = codes "u";
  model_key = codes "k";
  upstream_key = codes "u";
  upstream_model = ref;
  priority = priority;
  enabled = true;
  archived = false;
  archived_at = none;
  selected = false;
}

abbrev catalog : ModelAdminCatalog
catalog = record {
  database_enabled = true;
  models = chat_model ∷ [];
  upstreams = [];
  routes = route (codes "x") 2 ∷ route (codes "y") 1 ∷ [];
}

routes_of_model-is_sorted_example :
    (is_sorted (routes_of_model collate catalog chat_model) ≡ true)
    × (any (λ (r : ModelAdminRoute). r.enabled) (routes_of_model collate catalog chat_model)
        ≡ any (λ r. is_model_route chat_model.ref r && r.enabled) catalog.routes)
routes_of_model-is_sorted_example =
    routes_of_model-is_sorted collate catalog chat_model (λ (r : ModelAdminRoute). r.enabled)

-- A formula, a code span with dollars, and a formula that is not closed yet.
abbrev pieces : List Text
pieces = codes "a $$x$$ " ∷ codes "`$$`" ∷ codes " b $$y" ∷ []

abbrev split : Text → List Text
split s = pieces

clamp_streaming_math-closed_example :
    let kept = kept_parts pieces in
    let shown = clamp_streaming_math split (concat pieces) in
    (shown ≡ concat kept)
    × (count_outside false kept % 2 ≡ 0)
    × (starts_with shown (concat pieces) ≡ true)
clamp_streaming_math-closed_example = clamp_streaming_math-closed split (concat pieces) refl

-- Two paragraphs, with spaces at their ends.
abbrev document : Node
document = element (codes "DIV") false (
    node (element (codes "P") false (node (text_node 0 (codes " a  b ")) no_nodes))
      (node (element (codes "P") false (node (text_node 1 (codes "c ")) no_nodes)) no_nodes))

-- The texts of its two text nodes.
abbrev content : ℕ → Text
content zero = codes " a  b "
content (suc n) = codes "c "

build_visible_search_text-IsAligned_example : IsAligned content (build_visible_search_text document)
build_visible_search_text-IsAligned_example =
    build_visible_search_text-IsAligned content document ((refl, tt), ((refl, tt), tt))
