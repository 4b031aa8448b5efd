-- ===== src/Run/Choice.antt =====
-- The choice of a thinking level and of a model (frontend/src/runs/thinkingLevel.ts,
-- modelPreference.ts) against what the server offers.
use ichat.Base.{
  ◌≡◌, ◌≢◌, refl, sym, ap, ◌∙◌, Bool, true, false, ◌||◌, Option, none, some, List, [], ◌∷◌, Text,
  find, filter, find-holds, includes, text_eq, text_eq_refl, text_eq_sound, is_empty, is_some,
  or_else, or_option, codes, if◌then◌else◌, Bool-cases, Option-cases, inl, inr,
}
use ichat.Api.Types.{
  ChatModelCapability, ImageContext, ImageContextState, vision_required, legacy_upgrade_required,
  no_images,
}
use mathlib.Core.Option.{some-injective}
use ichat.Run.Options.{
  ThinkingLevel, high, level_text, levels, level_of, clamp_thinking_level, Preferences, save_level,
  read_level, low, medium, xhigh, max, resolve_for_image_context, resolve_compatible, resolve_in,
  recommended, is_compatible, model_is, head?,
}

-- A level that was saved is read back.
pub read_level-save_level :
    (level : ThinkingLevel) (p : Preferences) → read_level (save_level level p) ≡ level
unfolding read_level save_level
read_level-save_level low p = refl
read_level-save_level medium p = refl
read_level-save_level high p = refl
read_level-save_level xhigh p = refl
read_level-save_level max p = refl

level_of-text :
    (raw : Text) (level : ThinkingLevel) → level_of raw ≡ some level → level_text level ≡ raw
unfolding level_of
level_of-text raw level h =
    text_eq_sound (level_text level) raw
      (find-holds (λ l. text_eq (level_text l) raw) levels level h)

-- The three results of `clampThinkingLevel` on a list that is not empty.
clamp_by : (a b : Bool) (o : Option ThinkingLevel) (level : ThinkingLevel) → ThinkingLevel
clamp_by a b o level = if a then level else if b then high else or_else o level

clamp-by :
    (level : ThinkingLevel) (first : Text) (rest : List Text)
    → clamp_thinking_level level (first ∷ rest)
      ≡ clamp_by
          (includes (first ∷ rest) (level_text level))
          (includes (first ∷ rest) (codes "high"))
          (level_of first)
          level
unfolding clamp_thinking_level clamp_by
clamp-by level first rest = refl

clamp_by-offered :
    (allowed : List Text) (a b : Bool) (o : Option ThinkingLevel) (level : ThinkingLevel)
    → includes allowed (level_text level) ≡ a
    → includes allowed (codes "high") ≡ b
    → ((l : ThinkingLevel) → o ≡ some l → includes allowed (level_text l) ≡ true)
    → (b || is_some o) ≡ true
    → includes allowed (level_text (clamp_by a b o level)) ≡ true
unfolding clamp_by
clamp_by-offered allowed true b o level p q f h = p
clamp_by-offered allowed false true o level p q f h = q
clamp_by-offered allowed false false (some l) level p q f h = f l refl
clamp_by-offered allowed false false none level p q f h = cc

-- The level sent for a model is one that it offers, if it offers "high" or lists a known level first.
pub clamp_thinking_level-offered :
    (level : ThinkingLevel) (first : Text) (rest : List Text)
    → (includes (first ∷ rest) (codes "high") || is_some (level_of first)) ≡ true
    → includes (first ∷ rest) (level_text (clamp_thinking_level level (first ∷ rest))) ≡ true
clamp_thinking_level-offered level first rest h =
    ap (λ l. includes (first ∷ rest) (level_text l)) (clamp-by level first rest)
    ∙ clamp_by-offered (first ∷ rest) _ _ (level_of first) level refl refl
        (λ l e.
          ap (λ t. includes (first ∷ rest) t) (level_of-text first l e)
          ∙ ap (λ b. b || includes rest first) (text_eq_refl first))
        h

-- A model of the list, found by a search or at its head.
holds-or_option :
    (P : ChatModelCapability → Type 0) (a b : Option ChatModelCapability)
    → ((m : ChatModelCapability) → a ≡ some m → P m)
    → ((m : ChatModelCapability) → b ≡ some m → P m)
    → (m : ChatModelCapability) → or_option a b ≡ some m
    → P m
holds-or_option P none b f g m h = g m h
holds-or_option P (some a) b f g m h = f m h

find-all :
    (q p : ChatModelCapability → Bool) (ms : List ChatModelCapability) (m : ChatModelCapability)
    → find p (filter q ms) ≡ some m
    → q m ≡ true
find-all q p [] m h = cc
find-all q p (x ∷ ms) m h = elim (Bool-cases (q x)) [
  | inl e ↦ elim (Bool-cases (p x)) [
    | inl f ↦ ap q (some-injective m x (sym (rw (e, f) at h))) ∙ e
    | inr f ↦ find-all q p ms m (rw (e, f) at h)
  ]
  | inr e ↦ find-all q p ms m (rw e at h)
]

head?-all :
    (q : ChatModelCapability → Bool) (ms : List ChatModelCapability) (m : ChatModelCapability)
    → head? (filter q ms) ≡ some m
    → q m ≡ true
head?-all q [] m h = cc
head?-all q (x ∷ ms) m h = elim (Bool-cases (q x)) [
  | inl e ↦ ap q (some-injective m x (sym (rw e at h))) ∙ e
  | inr e ↦ head?-all q ms m (rw e at h)
]

recommended-all :
    (q : ChatModelCapability → Bool) (context : ImageContext) (ms : List ChatModelCapability)
    (m : ChatModelCapability)
    → recommended context (filter q ms) ≡ some m
    → q m ≡ true
unfolding recommended
recommended-all q context ms m h = elim (Option-cases context.recommended_model) [
  | inl e ↦ absurd (cc (rw (e, recommended) at h))
  | inr (id, e) ↦ elim (Bool-cases (is_empty id)) [
    | inl f ↦ absurd (cc (rw (e, f, recommended) at h))
    | inr f ↦ find-all q (model_is (some id)) ms m (rw (e, f, recommended) at h)
  ]
]

resolve_compatible-fits :
    (state : ImageContextState) (context : ImageContext) (p : Preferences) (m : ChatModelCapability)
    → resolve_compatible state context p ≡ some m
    → is_compatible state m ≡ true
unfolding resolve_compatible
resolve_compatible-fits state context p m h =
    let ms = p.available_models in
    let q = is_compatible state in
    elim (Bool-cases (is_empty (filter q ms))) [
      | inl e ↦ absurd (cc (rw e at h))
      | inr e ↦
          holds-or_option (λ x. q x ≡ true) (recommended context (filter q ms)) _
            (recommended-all q context ms)
            (holds-or_option (λ x. q x ≡ true) (find (model_is p.stored_model) (filter q ms)) _
              (find-all q (model_is p.stored_model) ms) (head?-all q ms))
            m (rw e at h)
    ]

-- A conversation whose images ask for a kind of model is given a model of that kind or none.
pub resolve_for_image_context-fits :
    (context : ImageContext) (p : Preferences) (m : ChatModelCapability)
    → context.state ≢ no_images
    → resolve_for_image_context (some context) p ≡ some m
    → is_compatible context.state m ≡ true
unfolding resolve_for_image_context
resolve_for_image_context-fits context p m asked h = go context.state asked h
  where
    go :
        (state : ImageContextState)
        → state ≢ no_images
        → resolve_in state context p ≡ some m
        → is_compatible state m ≡ true
    go no_images n e = absurd (n refl)
    go vision_required n e = resolve_compatible-fits vision_required context p m e
    go legacy_upgrade_required n e = resolve_compatible-fits legacy_upgrade_required context p m e
