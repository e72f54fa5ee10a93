-- ===== src/Provider/JsonRpc/Proxy.antt =====
-- provider/src/json_rpc.rs: `get_http_proxy_url` and `http_client`. A URL is the text that it was
-- parsed from; the environment is a function.
use rust_recall.Base.{String, Option, none, some, Result, ok, ◌>>=◌, transpose}
use mathlib.Core.Option

pub data Scheme : Type 0 where
  http https websocket : Scheme

or_var : Option String → Option String → Option String
or_var none b = b
or_var (some a) b = some a

module _ (env : String → Option String) (parse_url : String → Result String) where
  proxy_var : Scheme → Option String
  proxy_var http = env "HTTP_PROXY"
  proxy_var https = or_var (env "HTTPS_PROXY") (env "HTTP_PROXY")
  proxy_var websocket = none

  unfoldable pub get_http_proxy_url : Scheme → Option String → Result (Option String)
  unfolding proxy_var or_var
  get_http_proxy_url scheme (some u) = ok (some u)
  get_http_proxy_url scheme none = transpose (Option.map parse_url (proxy_var scheme))

  -- `http_client`: the client is made with the proxy, if there is one.
  unfoldable pub http_client :
      {H : Type 0}
      → (String → Result H)
      → (String → String → Result H)
      → Scheme
      → String
      → Option String
      → Result H
  unfolding get_http_proxy_url
  http_client new new_with_proxy scheme url proxy_url = do
    proxy ← get_http_proxy_url scheme proxy_url
    elim proxy [ none ↦ new url | some p ↦ new_with_proxy url p ]
