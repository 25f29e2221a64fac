-- ===== src/RouteChecks/Gates.antt =====
-- Passive mode, and what a client can do about the scheme of its request (core/checks/implementations,
-- core/validation/validator.ts).
use guard_core_ts.Base.{ℕ, ◌≡◌, refl, String, false, Option, none, some, str_eq, arith}
use guard_core_ts.JsMap.{JsMap}
use guard_core_ts.Response.{Response}
use guard_core_ts.IpAccess.{Addresses}
use guard_core_ts.RouteChecks.{
  Config, Request, truthy, is_trusted_proxy, forwarded_https, is_request_https,
}

-- The same request with other headers.
abbrev pub with_headers : {V : Type 0} → JsMap String → Request V → Request V
with_headers headers q = record q { headers = headers }

module _ {V : Type 0} (error_response : ℕ → String → Response) (c : Config V) where
  untrusted :
      {P : Type 0} (addresses : Addresses P) (lower : String → String) (host : Option String)
      (headers : JsMap String)
      → ((ip : String) → host ≡ some ip → is_trusted_proxy addresses ip c.trusted_proxies ≡ false)
      → forwarded_https error_response c addresses lower host headers ≡ false
  unfolding forwarded_https
  untrusted addresses lower none headers h = refl
  untrusted addresses lower (some ip) headers h = rw (h ip refl) refl

  -- Whether a request counts as HTTPS does not depend on its headers, unless it comes from an address
  -- that is a trusted proxy: then and else its scheme decides.
  pub untrusted-is_request_https :
      {P : Type 0} (addresses : Addresses P) (lower : String → String) (q : Request V)
      (headers : JsMap String)
      → ((ip : String)
          → truthy q.client_host ≡ some ip
          → is_trusted_proxy addresses ip c.trusted_proxies ≡ false)
      → is_request_https error_response c addresses lower (with_headers headers q)
        ≡ str_eq q.url_scheme "https"
  unfolding is_request_https
  untrusted-is_request_https addresses lower q headers h =
      ground (arith, untrusted addresses lower (truthy q.client_host) headers h)
