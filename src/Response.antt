-- ===== src/Response.antt =====
-- protocols/response.ts: a response as the checks make and change it.
use guard_core_ts.Base.{ℕ, String}
use guard_core_ts.JsMap.{JsMap, put}

pub record Response : Type 0 where
  pub status_code : ℕ
  pub body_text : String
  pub headers : JsMap String

-- `response.setHeader(name, value)`
unfoldable pub set_header : String → String → Response → Response
set_header name value r = record r { headers = put r.headers name value }
