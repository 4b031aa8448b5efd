-- ===== src/App/Toasts.antt =====
-- Toast ids (frontend/src/ui/state.ts).
use ichat.Base.{
  ℕ, ◌≤◌, ◌<◌, ◌≡◌, Option, none, some, Text, Bool, true, false, List, [], ◌∷◌, all, not, arith,
}
use ichat.App.Action
use mathlib.Core.Path.{subst}
use ichat.App.Slices.{Toast, UiState, ui_reducer}
use ichat.App.Store.{AppState, initial_state, root_reducer, dispatch_all}

-- The toast that is shown has an id that the sequence has reached.
abbrev pub IsReached : Option Toast → ℕ → Type 0
IsReached none n = Unit {0}
IsReached (some t) n = t.id ≤ n

abbrev pub IsNewer : Toast → Option Toast → Type 0
IsNewer before none = ⊥
IsNewer before (some t) = before.id < t.id

abbrev pub is_reset : Action.AppAction → Bool
is_reset Action.app_reset = true
is_reset _ = false

pub ui_reducer-IsReached :
    (s : UiState) (a : Action.AppAction)
    → IsReached s.toast s.toast_sequence
    → IsReached (ui_reducer s a).toast (ui_reducer s a).toast_sequence
unfolding ui_reducer
ui_reducer-IsReached s a h = ground arith

toast_sequence-le :
    (s : UiState) (a : Action.AppAction)
    → is_reset a ≡ false
    → s.toast_sequence ≤ (ui_reducer s a).toast_sequence
unfolding ui_reducer
toast_sequence-le s a h = ground arith

is_reset_first :
    (a : Action.AppAction) (actions : List Action.AppAction)
    → all (λ a. not (is_reset a)) (a ∷ actions) ≡ true
    → is_reset a ≡ false
is_reset_first a actions h = ground arith

is_reset_rest :
    (a : Action.AppAction) (actions : List Action.AppAction)
    → all (λ a. not (is_reset a)) (a ∷ actions) ≡ true
    → all (λ a. not (is_reset a)) actions ≡ true
is_reset_rest a actions h = ground arith

toast_sequence-dispatch_all :
    (date_parse : Text → Option ℕ) (s : AppState) (actions : List Action.AppAction)
    → all (λ a. not (is_reset a)) actions ≡ true
    → s.ui.toast_sequence ≤ (dispatch_all date_parse s actions).ui.toast_sequence
unfolding dispatch_all root_reducer
toast_sequence-dispatch_all date_parse s [] h = omega arith
toast_sequence-dispatch_all date_parse s (a ∷ actions) h =
    let first = toast_sequence-le s.ui a (is_reset_first a actions h) in
    let rest =
      toast_sequence-dispatch_all date_parse (root_reducer date_parse s a) actions
        (is_reset_rest a actions h) in
    omega arith

dispatch_all-IsReached :
    (date_parse : Text → Option ℕ) (s : AppState) (actions : List Action.AppAction)
    → IsReached s.ui.toast s.ui.toast_sequence
    → let now = dispatch_all date_parse s actions in IsReached now.ui.toast now.ui.toast_sequence
unfolding dispatch_all root_reducer
dispatch_all-IsReached date_parse s [] h = h
dispatch_all-IsReached date_parse s (a ∷ actions) h =
    dispatch_all-IsReached date_parse (root_reducer date_parse s a) actions
      (ui_reducer-IsReached s.ui a h)

shown-IsReached :
    (s : AppState) (shown : Toast)
    → s.ui.toast ≡ some shown
    → IsReached s.ui.toast s.ui.toast_sequence
    → shown.id ≤ s.ui.toast_sequence
shown-IsReached s shown h r = subst (λ t. IsReached t s.ui.toast_sequence) h r

-- A toast on screen at any time after the start has a smaller id than the toast that any later
-- `ui/showToast` puts there, unless the store is reset in between: a view keyed by the id is always
-- a new one.
pub fresh_toast :
    (date_parse : Text → Option ℕ) (before after : List Action.AppAction) (shown : Toast)
    (message : Text) (tone : Action.ToastTone)
    → (dispatch_all date_parse initial_state before).ui.toast ≡ some shown
    → all (λ a. not (is_reset a)) after ≡ true
    → IsNewer shown
        (root_reducer date_parse
          (dispatch_all date_parse (dispatch_all date_parse initial_state before) after)
          (Action.show_toast message tone)).ui.toast
unfolding root_reducer ui_reducer
fresh_toast date_parse before after shown message tone h no_reset =
    let s = dispatch_all date_parse initial_state before in
    let reached =
      shown-IsReached s shown h (dispatch_all-IsReached date_parse initial_state before tt) in
    let later = toast_sequence-dispatch_all date_parse s after no_reset in omega arith
