-- ===== src/ModelAdmin/Catalog.antt =====
-- frontend/src/model-admin/catalogView.ts, with the fields that it reads of the types of
-- frontend/src/api/modelAdmin.ts. `collate` is `localeCompare` and `lower` is `toLowerCase`, which stand
-- on the tables of Unicode.
use Prim.Native.Nat.{Ordering}
use ichat.Base.{
  ℕ, ◌-◌, Bool, true, false, not, ◌&&◌, ◌||◌, Option, none, some, List, [], ◌∷◌, ◌++◌, map, Text,
  codes, any, filter, find_last, insert_before, length, is_empty, is_some, trim, index_of, ltb,
  text_eq, if◌then◌else◌,
}

pub record ModelAdminChatModel : Type 0 where
  pub ref : Text
  pub key : Text
  pub label : Text
  pub enabled : Bool
  pub archived : Bool
  pub archived_at : Option Text

pub record ModelAdminUpstream : Type 0 where
  pub ref : Text
  pub key : Text
  pub label : Text
  pub adapter : Text
  pub enabled : Bool
  pub archived : Bool
  pub archived_at : Option Text

pub record ModelAdminRoute : Type 0 where
  pub ref : Text
  pub model_ref : Text
  pub upstream_ref : Text
  pub model_key : Text
  pub upstream_key : Text
  pub upstream_model : Text
  pub priority : ℕ
  pub enabled : Bool
  pub archived : Bool
  pub archived_at : Option Text
  pub selected : Bool

pub record ModelAdminCatalog : Type 0 where
  pub database_enabled : Bool
  pub models : List ModelAdminChatModel
  pub upstreams : List ModelAdminUpstream
  pub routes : List ModelAdminRoute

-- `activeCatalog`.
unfoldable pub active_catalog : ModelAdminCatalog → ModelAdminCatalog
active_catalog catalog = record catalog {
  models = filter (λ (m : ModelAdminChatModel). not m.archived) catalog.models;
  upstreams = filter (λ (u : ModelAdminUpstream). not u.archived) catalog.upstreams;
  routes = filter (λ (r : ModelAdminRoute). not r.archived) catalog.routes;
}

-- `matchesQuery` of an item with this label and key.
unfoldable pub matches_query : (Text → Text) → (label key query : Text) → Bool
unfolding trim index_of
matches_query lower label key query =
    let needle = lower (trim query) in
    is_empty needle || is_some (index_of needle (lower (label ++ codes " " ++ key)))

-- Whether `compareRoutes` is at most 0.
unfoldable pub route_le : (Text → Text → Ordering) → ModelAdminRoute → ModelAdminRoute → Bool
route_le collate left right =
    if ltb left.priority right.priority
    then true
    else if ltb right.priority left.priority
    then false
    else elim (collate left.upstream_key right.upstream_key) [
      | Ordering.lt ↦ true
      | Ordering.gt ↦ false
      | Ordering.eq ↦ elim (collate left.upstream_model right.upstream_model) [
        | Ordering.gt ↦ false
        | _ ↦ true
      ]
    ]

-- `routes.sort(compareRoutes)`, which is stable.
unfoldable pub sort_routes : (Text → Text → Ordering) → List ModelAdminRoute → List ModelAdminRoute
unfolding route_le
sort_routes collate [] = []
sort_routes collate (r ∷ routes) = insert_before (route_le collate r) r (sort_routes collate routes)

-- The tests of `routesOfModel` and `routesOfUpstream`.
abbrev pub is_model_route : Text → ModelAdminRoute → Bool
is_model_route ref r = text_eq r.model_ref ref && not r.archived

abbrev pub is_upstream_route : Text → ModelAdminRoute → Bool
is_upstream_route ref r = text_eq r.upstream_ref ref && not r.archived

unfoldable pub routes_of_model :
    (Text → Text → Ordering) → ModelAdminCatalog → ModelAdminChatModel → List ModelAdminRoute
unfolding sort_routes
routes_of_model collate catalog model =
    sort_routes collate (filter (is_model_route model.ref) catalog.routes)

unfoldable pub routes_of_upstream :
    (Text → Text → Ordering) → ModelAdminCatalog → ModelAdminUpstream → List ModelAdminRoute
unfolding sort_routes
routes_of_upstream collate catalog upstream =
    sort_routes collate (filter (is_upstream_route upstream.ref) catalog.routes)

pub data ArchivedEntry : Type 0 where
  model_entry : (ref title detail : Text) → ModelAdminChatModel → ArchivedEntry
  upstream_entry route_entry : (ref title detail : Text) → ArchivedEntry

-- `left === right` of two dates that may be null.
abbrev pub same_date : Option Text → Option Text → Bool
same_date none none = true
same_date (some a) (some b) = text_eq a b
same_date _ _ = false

-- `route.archived_at !== models.get(route.model_ref)?.archived_at`: a missing model has no date, which
-- differs from null.
abbrev pub differs_from : Option ModelAdminChatModel → ModelAdminRoute → Bool
differs_from none r = true
differs_from (some m) r = not (same_date r.archived_at m.archived_at)

-- The entry of `models` for a route.
abbrev pub model_of : ModelAdminCatalog → ModelAdminRoute → Option ModelAdminChatModel
model_of catalog r =
    find_last (λ (m : ModelAdminChatModel). text_eq m.ref r.model_ref) catalog.models

abbrev pub is_route_entry : ModelAdminCatalog → ModelAdminRoute → Bool
is_route_entry catalog r = r.archived && differs_from (model_of catalog r) r

-- `archivedEntries`.
unfoldable pub archived_entries : ModelAdminCatalog → List ArchivedEntry
unfolding text_eq
archived_entries catalog =
    map (λ (m : ModelAdminChatModel). model_entry m.ref m.label m.key m)
      (filter (λ (m : ModelAdminChatModel). m.archived) catalog.models)
    ++ (map
          (λ (u : ModelAdminUpstream).
            upstream_entry u.ref u.label (u.key ++ codes " · " ++ u.adapter))
          (filter (λ (u : ModelAdminUpstream). u.archived) catalog.upstreams)
        ++ map
            (λ (r : ModelAdminRoute).
              route_entry r.ref r.upstream_model (r.model_key ++ codes " → " ++ r.upstream_key))
            (filter (is_route_entry catalog) catalog.routes))

-- The routes that were archived with a model.
abbrev pub came_with : ModelAdminChatModel → ModelAdminRoute → Bool
came_with m r = text_eq r.model_ref m.ref && same_date r.archived_at m.archived_at

abbrev pub has_active_upstream : ModelAdminCatalog → ModelAdminRoute → Bool
has_active_upstream catalog r =
    any (λ (u : ModelAdminUpstream). not u.archived && text_eq u.ref r.upstream_ref)
      catalog.upstreams

-- `modelRestorePreview`: the numbers of routes that come back and that do not.
unfoldable pub model_restore_preview : ModelAdminCatalog → ModelAdminChatModel → ℕ × ℕ
unfolding text_eq
model_restore_preview catalog m =
    let routes = filter (came_with m) catalog.routes in
    let restorable = filter (has_active_upstream catalog) routes in
    (length restorable, length routes - length restorable)

-- `routeStatusText`.
unfoldable pub route_status_text :
    ModelAdminRoute → ModelAdminChatModel → Option ModelAdminUpstream → Bool → Text
route_status_text r m upstream database_enabled =
    if r.selected
    then if database_enabled then codes "当前路由" else codes "目录首选"
    else if not r.enabled
    then codes "路由下线"
    else if not (elim upstream [ none ↦ false | some u ↦ u.enabled ])
    then codes "上游下线"
    else if not m.enabled
    then codes "模型下线"
    else codes "候选路由"
