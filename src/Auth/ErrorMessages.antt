-- ===== src/Auth/ErrorMessages.antt =====
-- `mapAuthError` (frontend/src/auth/authErrorMessages.ts). `detail` is the detail of the error where it
-- is a string.
use ichat.Base.{
  ℕ, Bool, true, false, ◌&&◌, Option, none, some, Text, codes, not, [], is_some, or_else, index_of,
  ◌==◌, if◌then◌else◌,
}
use ichat.Api.Errors.{Thrown, to_api_error}

pub data AuthMode : Type 0 where
  login register : AuthMode

-- The fields of `AuthFieldErrors` that are set, and the message of the form.
pub record AuthErrorView : Type 0 where
  pub username : Option Text
  pub email : Option Text
  pub form_message : Option Text

abbrev pub is_login : AuthMode → Bool
is_login login = true
is_login register = false

abbrev pub no_error : AuthErrorView
no_error = record { username = none; email = none; form_message = none }

abbrev pub form_error : Text → AuthErrorView
form_error message = record no_error { form_message = some message }

-- `detail.includes(part)`.
unfoldable pub mentions : Option Text → Text → Bool
unfolding index_of
mentions detail part = is_some (index_of part (or_else detail []))

-- The tests after those of the mode.
unfoldable pub form_view : ℕ → Text → AuthErrorView
form_view status message =
    if status == 422 then form_error (codes "提交内容不符合要求，请检查后重试") else form_error message

unfoldable pub map_auth_error : Thrown → Option Text → AuthMode → AuthErrorView
unfolding to_api_error mentions form_view
map_auth_error error detail mode =
    let e = to_api_error error in
    if e.is_abort
    then no_error
    else if is_login mode && e.status == 401
    then form_error (codes "用户名或密码错误")
    else if not (is_login mode) && e.status == 409 && mentions detail (codes "Username")
    then record no_error { username = some (codes "该用户名已被注册") }
    else if not (is_login mode) && e.status == 409 && mentions detail (codes "Email")
    then record no_error { email = some (codes "该邮箱已被注册") }
    else form_view e.status e.message
