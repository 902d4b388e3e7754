-- ===== src/Broker/Proxy.antt =====
-- The outgoing request of src/services/broker-service.ts: headers, body limit and redaction.
pub mod Body
pub mod Headers
use keylore.Prelude.{
  ℕ, ◌+◌, ◌-◌, String, Bool, true, false, not, Option, none, some, List, [], ◌∷◌, ◌++◌, ◌||◌, ◌&&◌,
  ◌==◌, ltb, leb, if◌then◌else◌, length, take, filter, includes, truthy, or_else, ◌+++◌,
}
use keylore.Exec.{Result, ok, thrown, Exec, ◌>>=◌, ◌>>◌, return, gets, modify}
use keylore.Domain.{Operation, http_get, http_post}
use keylore.Domain.Access.{AccessRequestInput, HttpResult}
use keylore.Domain.Config.{KeyLoreConfig}
use keylore.Egress.{Url}
use keylore.World.{World, Outbound}
use keylore.World.Host.{Host, Response}

abbrev pub blocked_headers : List String
blocked_headers = "authorization" ∷ "proxy-authorization" ∷ "cookie" ∷ []

unfoldable pub sanitize_headers :
    (String → String) → List (String × String) → List (String × String)
sanitize_headers lower headers = filter (λ h. not (includes blocked_headers (lower h.0))) headers

-- A field of an object literal: a later one of the same name replaces the value. Names are compared as
-- texts here; `fetch` does not tell letter case apart.
unfoldable pub put_field : List (String × String) → String × String → List (String × String)
put_field [] (k, v) = (k, v) ∷ []
put_field ((j, u) ∷ fields) (k, v) =
    let rest = put_field fields (k, v) in if j == k then (j, v) ∷ fields else (j, u) ∷ rest

unfoldable pub put_fields : List (String × String) → List (String × String) → List (String × String)
put_fields fields [] = fields
put_fields fields (field ∷ more) = put_fields (put_field fields field) more

abbrev method_for_operation : Operation → String
method_for_operation http_post = "POST"
method_for_operation http_get = "GET"

abbrev is_post : Operation → Bool
is_post http_post = true
is_post http_get = false

-- The loop of `readLimitedResponseBody`: the bytes kept, and whether some were cut off.
unfoldable pub read_chunks : ℕ → ℕ → List (List ℕ) → List ℕ × Bool
read_chunks max_bytes total [] = ([], false)
read_chunks max_bytes total (value ∷ chunks) =
    let total' = total + length value in
    let rest = read_chunks max_bytes total' chunks in
    if ltb max_bytes total'
    then (take (length value - (total' - max_bytes)) value, true)
    else (value ++ rest.0, rest.1)

unfoldable pub read_limited : (List ℕ → String) → ℕ → Option (List (List ℕ)) → String × Bool
unfolding read_chunks
read_limited decode max_bytes none = ("", false)
read_limited decode max_bytes (some chunks) =
    let (bytes, truncated) = read_chunks max_bytes 0 chunks in (decode bytes, truncated)

abbrev pub default_headers : List (String × String)
default_headers = ("accept", "application/json, text/plain;q=0.9, */*;q=0.8") ∷ []

module _ (host : Host) where
  unfoldable pub redact_text : String → String → String
  redact_text text secret = host.redact_patterns (host.redact_secret text secret)

  unfoldable pub truncate : String → ℕ → String × Bool
  truncate text max_length =
      if leb (host.text_length text) max_length
      then (text, false)
      else (host.prefix text max_length +++ "\n...[truncated]", true)

  -- What is handed to `fetch`: the url, and the method, the headers object and the body of its options.
  unfoldable pub outbound_request : AccessRequestInput → Url → List (String × String) → Outbound
  unfolding sanitize_headers put_field put_fields
  outbound_request input target_url auth_headers = record {
    method = method_for_operation input.operation;
    url = target_url.href;
    headers =
        put_fields
          (put_fields default_headers (sanitize_headers host.lower (or_else input.headers [])))
          auth_headers;
    body = if is_post input.operation && truthy input.payload then input.payload else none;
  }

  -- `fetch`: the request leaves before it is known whether it fails, and as the code asks for no other
  -- mode, redirects are followed.
  fetch : Outbound → Exec World Response
  fetch request w =
      (host.fetch request, record w { outbound = w.outbound ++ request ∷ host.redirected request })

  unfoldable pub http_result : KeyLoreConfig → String → Response → HttpResult
  unfolding redact_text truncate read_limited
  http_result config secret response =
      let (body, cut) = read_limited host.decode config.max_response_bytes response.body in
      let (preview, shortened) = truncate (redact_text body secret) config.max_response_bytes in
      record {
        status = response.status;
        content_type = response.content_type;
        body_preview = preview;
        body_truncated = cut || shortened;
      }

  unfoldable pub execute_proxy_request :
      KeyLoreConfig
      → AccessRequestInput
      → Url
      → String
      → List (String × String)
      → Exec World HttpResult
  unfolding outbound_request fetch http_result
  execute_proxy_request config input target_url secret auth_headers = do
    response ← fetch (outbound_request input target_url auth_headers)
    return (http_result config secret response)
