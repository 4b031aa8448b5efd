-- ===== src/ModelAdmin/Routes.antt =====
-- The routes of a model or an upstream and their order (frontend/src/model-admin/catalogView.ts).
use Prim.Native.Nat.{Ordering}
use ichat.Base.{
  ℕ, ◌≡◌, ◌≤◌, refl, ◌∙◌, Bool, true, false, ◌&&◌, ◌||◌, List, [], ◌∷◌, Text, all, any, filter,
  insert_before, leb, arith, Bool-cases, inl, inr,
}
use ichat.ModelAdmin.Catalog.{
  ModelAdminRoute, ModelAdminCatalog, ModelAdminChatModel, route_le, sort_routes, is_model_route,
  routes_of_model,
}

-- No later route has a smaller priority.
abbrev pub is_sorted : List ModelAdminRoute → Bool
is_sorted [] = true
is_sorted (r ∷ rest) =
    all (λ (s : ModelAdminRoute). leb r.priority s.priority) rest && is_sorted rest

all-insert_before :
    (q p : ModelAdminRoute → Bool) (r : ModelAdminRoute) (s : List ModelAdminRoute)
    → all q (insert_before p r s) ≡ (q r && all q s)
all-insert_before q p r [] = refl
all-insert_before q p r (x ∷ s) = ground (arith, all-insert_before q p r s)

any-insert_before :
    (q p : ModelAdminRoute → Bool) (r : ModelAdminRoute) (s : List ModelAdminRoute)
    → any q (insert_before p r s) ≡ (q r || any q s)
any-insert_before q p r [] = refl
any-insert_before q p r (x ∷ s) = ground (arith, any-insert_before q p r s)

any-filter_and :
    (q p : ModelAdminRoute → Bool) (s : List ModelAdminRoute)
    → any q (filter p s) ≡ any (λ r. p r && q r) s
any-filter_and q p [] = refl
any-filter_and q p (x ∷ s) = ground (arith, any-filter_and q p s)

all-after :
    (a b : ℕ) (s : List ModelAdminRoute)
    → a ≤ b
    → all (λ (x : ModelAdminRoute). leb b x.priority) s ≡ true
    → all (λ (x : ModelAdminRoute). leb a x.priority) s ≡ true
all-after a b [] h k = refl
all-after a b (x ∷ s) h k = ground (arith, all-after a b s h)

module _ (collate : Text → Text → Ordering) where
  route_le-priority :
      (r x : ModelAdminRoute) → route_le collate r x ≡ true → leb r.priority x.priority ≡ true
  unfolding route_le
  route_le-priority r x h = ground arith

  not_route_le-priority :
      (r x : ModelAdminRoute) → route_le collate r x ≡ false → leb x.priority r.priority ≡ true
  unfolding route_le
  not_route_le-priority r x h = ground arith

  insert-is_sorted :
      (r : ModelAdminRoute) (s : List ModelAdminRoute)
      → is_sorted s ≡ true
      → is_sorted (insert_before (route_le collate r) r s) ≡ true
  insert-is_sorted r [] h = refl
  insert-is_sorted r (x ∷ s) h = elim (Bool-cases (route_le collate r x)) [
    | inl e ↦ rw e (ground (arith, route_le-priority r x e, all-after r.priority x.priority s))
    | inr e ↦ rw e (
        ground (
          arith,
          not_route_le-priority r x e,
          insert-is_sorted r s,
          all-insert_before (λ (y : ModelAdminRoute). leb x.priority y.priority)
              (route_le collate r) r s,
        ))
  ]

  sort_routes-is_sorted : (s : List ModelAdminRoute) → is_sorted (sort_routes collate s) ≡ true
  unfolding sort_routes
  sort_routes-is_sorted [] = refl
  sort_routes-is_sorted (r ∷ s) =
      insert-is_sorted r (sort_routes collate s) (sort_routes-is_sorted s)

  any-sort_routes :
      (q : ModelAdminRoute → Bool) (s : List ModelAdminRoute)
      → any q (sort_routes collate s) ≡ any q s
  unfolding sort_routes
  any-sort_routes q [] = refl
  any-sort_routes q (r ∷ s) =
      any-insert_before q (route_le collate r) r (sort_routes collate s)
      ∙ ground (arith, any-sort_routes q s)

  -- The routes of a model stand in the order of their priority, whatever the locale makes of their
  -- names, and a route is among them just when it is an active route of the model in the catalog.
  pub routes_of_model-is_sorted :
      (catalog : ModelAdminCatalog) (model : ModelAdminChatModel) (q : ModelAdminRoute → Bool)
      → (is_sorted (routes_of_model collate catalog model) ≡ true)
        × (any q (routes_of_model collate catalog model)
            ≡ any (λ r. is_model_route model.ref r && q r) catalog.routes)
  unfolding routes_of_model
  routes_of_model-is_sorted catalog model q = (
    sort_routes-is_sorted (filter (is_model_route model.ref) catalog.routes),
    any-sort_routes q (filter (is_model_route model.ref) catalog.routes)
        ∙ any-filter_and q (is_model_route model.ref) catalog.routes,
  )
