-- ===== src/Provider/JsonRpc/Connect.antt =====
-- provider/src/json_rpc.rs: `JsonRpcProvider::new_http` and `ws_client`. The clients of `tendermint_rpc` and of the
-- environment are foreign: a client is made or refused.
use rust_recall.Base.{ℕ, String, ◌<>◌, Option, Result, map_ok, context}
use rust_recall.Base.Action.{Action, map_result}
use rust_recall.Provider.JsonRpc.{JsonRpcProvider}
use rust_recall.Provider.JsonRpc.Proxy.{Scheme, http_client}

pub record Connector : Type 1 where
  pub HttpClient : Type 0
  pub env : String → Option String
  pub parse_url : String → Result String
  pub scheme : String → Scheme
  pub new_client : String → Result HttpClient
  pub new_with_proxy : String → String → Result HttpClient

-- The client is the one whose requests `Client` describes; what is left is the chain ID and the URL
-- of the object API.
unfoldable pub new_http :
    Connector → String → ℕ → Option String → Option String → Result JsonRpcProvider
new_http X url chain_id proxy_url object_url =
    map_ok (λ inner. record { chain_id = chain_id; objects = object_url })
      (http_client X.env X.parse_url X.new_client X.new_with_proxy (X.scheme url) url proxy_url)

-- `ws_client`, over `WebSocketClient::new`, which opens a socket: the client and its driver
unfoldable pub ws_client : {N W : Type 0} → (String → Action N W) → String → Action N W
ws_client new_socket url =
    map_result (λ r. context r ("failed to create WS client to: " <> url)) (new_socket url)
