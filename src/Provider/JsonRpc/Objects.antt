-- ===== src/Provider/JsonRpc/Objects.antt =====
-- provider/src/json_rpc.rs: the object API (`ObjectProvider`). The URL is the one of the provider,
-- which the `url` crate prints with its final slash.
use rust_recall.Base.{
  ℕ, String, ◌<>◌, Option, none, some, Result, ok_or, ◌>>=◌ as ◌>>=ʳ◌, if◌then◌else◌,
}
use rust_recall.Base.Action.{Action, ◌>>=◌, lift, pure}
use rust_recall.Base.Text.{show, parse_u64}
use rust_recall.Fvm.{Fvm}
use rust_recall.Provider.Traits.{NodeAddr, UploadResponse, ByteStream}
use rust_recall.Provider.JsonRpc.Rpc.{Client, HttpRequest, get, post_form, head, HttpResponse}

module _ (F : Fvm) (C : Client F) where
  -- `send`, and the test of the status: a failure shows the response's text.
  unfoldable pub send : HttpRequest → String → Action C.Net HttpResponse
  send request message = do
    response ← C.http request
    lift (
        if response.is_success
        then Result.ok response
        else (response.text >>=ʳ λ text. Result.err (message <> text)))

  abbrev objects_url : Option String → Action C.Net String
  objects_url objects = lift (ok_or objects "object provider is required")

  -- `{url}v1/objects/{address}/{key}?height={height}`
  abbrev object_path : String → F.Address → String → ℕ → String
  object_path url address key height =
      url <> "v1/objects/" <> F.show_address address <> "/" <> key <> "?height=" <> show height

  -- `ObjectProvider::node_addr`
  unfoldable pub get_node_addr : Option String → Action C.Net NodeAddr
  unfolding send
  get_node_addr objects = do
    url ← objects_url objects
    response ← send (get (url <> "v1/node") none) "failed to get node address info: "
    lift response.node_addr

  unfoldable pub upload : Option String → ByteStream → ℕ → Action C.Net UploadResponse
  unfolding send
  upload objects body size = do
    url ← objects_url objects
    response ← send (post_form (url <> "v1/objects") (show size) body) "failed to upload object: "
    lift response.upload_response

  abbrev range_header : Option String → Option String
  range_header none = none
  range_header (some range) = some ("bytes=" <> range)

  unfoldable pub download :
      Option String → F.Address → String → Option String → ℕ → Action C.Net ByteStream
  unfolding send
  download objects address key range height = do
    url ← objects_url objects
    response ←
        send (get (object_path url address key height) (range_header range))
          "failed to download object: "
    pure response.stream

  unfoldable pub size : Option String → F.Address → String → ℕ → Action C.Net ℕ
  unfolding send
  size objects address key height = do
    url ← objects_url objects
    response ← send (head (object_path url address key height)) "failed to get object size: "
    header ←
        lift (
          ok_or response.content_length "missing content-length header in response for object size")
    text ← lift header
    lift (parse_u64 text)
