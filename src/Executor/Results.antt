-- ===== src/Executor/Results.antt =====
-- lib/server-code/runners/tasks/util/result-wrapper.js and tasks/result.js: the objects that tell the
-- caller how a task ended.

use text.Mathlib.Text.{◌==◌ as str_eq}
use js_code_runner.Common.{String, false, Option, none, some, if◌then◌else◌}
use js_code_runner.Common.Int.{ℤ, pos, negsuc}
use js_code_runner.Executor.Types.{
  Response, ErrorValue, Payload, ExceptionWrapper, InvocationResult,
}

-- `text || other`
abbrev pub text_or : Option String → String → String
text_or none other = other
text_or (some t) other = if str_eq t "" then other else t

abbrev pub number_or : Option ℤ → ℤ → ℤ
number_or none other = other
number_or (some n) other = n

-- `new Error(message)`
abbrev pub error_of : String → ErrorValue
error_of m = record {
  jsonclass = none;
  code = none;
  http_status_code = none;
  exception_class = none;
  exception_message = none;
  message = some m;
  own_text = "{}";
  is_timeout = false;
}

unfoldable pub exception_of : ErrorValue → ExceptionWrapper
exception_of err = record {
  jsonclass = text_or err.jsonclass "com.backendless.commons.exception.ExceptionWrapper";
  code = number_or err.code (pos 0);
  http_status_code = number_or err.http_status_code (negsuc 0);
  exception_class = text_or err.exception_class "java.lang.Exception";
  exception_message = text_or err.exception_message (text_or err.message err.own_text);
}

-- `err && exports.exception(err)`
abbrev pub exception_if : Option ErrorValue → Option ExceptionWrapper
exception_if none = none
exception_if (some err) = some (exception_of err)

unfoldable pub invocation_result {ℓ} :
    {V : Type ℓ} → String → Response → Option ErrorValue → Payload V → InvocationResult V
invocation_result id response err args = record {
  request_id = id;
  http_response_status_code = response.status_code;
  http_response_headers = response.headers;
  http_response_cookies = response.cookies;
  arguments = args;
  exception = exception_if err;
}
