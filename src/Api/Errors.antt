-- ===== src/Api/Errors.antt =====
-- `ApiError` and what is thrown turned into one (frontend/src/api/errors.ts). The fields `detail`,
-- `payload` and `cause`, which carry whatever was thrown, are left out. A status is a number from 0 on.
use ichat.Base.{
  ℕ, Bool, true, false, Option, none, some, Text, codes, or_else, leb, ◌==◌, if◌then◌else◌,
}

-- `getDefaultErrorMessage`.
unfoldable pub default_error_message : ℕ → Text
default_error_message status =
    if status == 401
    then codes "登录状态已失效，请重新登录"
    else if status == 403
    then codes "没有权限访问该资源"
    else if status == 404
    then codes "资源不存在或已被删除"
    else if status == 409
    then codes "当前操作与现有状态冲突，请稍后重试"
    else if status == 422
    then codes "提交内容不符合要求，请检查后重试"
    else if status == 429
    then codes "操作过于频繁，请稍后再试"
    else if leb 500 status
    then codes "服务暂时不可用，请稍后重试"
    else codes "请求失败，请稍后重试"

pub record ApiErrorOptions : Type 0 where
  pub status : ℕ
  pub message : Option Text
  pub code : Option Text
  pub legacy_message_id : Option Text
  pub is_auth_expired : Option Bool
  pub is_abort : Option Bool

pub record ApiError : Type 0 where
  pub message : Text
  pub status : ℕ
  pub code : Option Text
  pub legacy_message_id : Option Text
  pub is_auth_expired : Bool
  pub is_abort : Bool

-- The constructor of `ApiError`.
unfoldable pub api_error : ApiErrorOptions → ApiError
unfolding default_error_message
api_error options = record {
  message = or_else options.message (default_error_message options.status);
  status = options.status;
  code = options.code;
  legacy_message_id = options.legacy_message_id;
  is_auth_expired = or_else options.is_auth_expired false;
  is_abort = or_else options.is_abort false;
}

-- What can be thrown: an `ApiError`, a `DOMException` named "AbortError", or anything else.
pub data Thrown : Type 0 where
  api : ApiError → Thrown
  abort other : Thrown

-- `isAbortError`.
unfoldable pub is_abort_error : Thrown → Bool
is_abort_error abort = true
is_abort_error _ = false

-- `toApiError`.
unfoldable pub to_api_error : Thrown → ApiError
unfolding api_error
to_api_error (api error) = error
to_api_error abort = api_error (record {
  status = 0;
  message = some (codes "请求已取消");
  code = none;
  legacy_message_id = none;
  is_auth_expired = none;
  is_abort = some true;
})
to_api_error other = api_error (record {
  status = 0;
  message = some (codes "网络连接失败，请检查后重试");
  code = none;
  legacy_message_id = none;
  is_auth_expired = none;
  is_abort = none;
})
