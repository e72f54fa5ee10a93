-- ===== src/Provider/JsonRpc/Answered.antt =====
-- The object API of the JSON RPC provider, where it answers.
use rust_recall.Base.{
  ℕ, ◌≡◌, refl, String, ◌<>◌, Bool, true, false, Option, some, none, Result, ok, err, panic, arith,
  if◌then◌else◌, ◌>>=◌ as ◌>>=ʳ◌,
}
use rust_recall.Base.Action.{◌>>=◌, lift, >>=-eq-ok, lift-eq-ok}
use rust_recall.Base.Text.{show}
use rust_recall.Fvm.{Fvm}
use rust_recall.Provider.Traits.{UploadResponse, NodeAddr, ByteStream}
use rust_recall.Provider.JsonRpc.Objects.{send, upload, get_node_addr}
use rust_recall.Provider.JsonRpc.Rpc.{Client, HttpRequest, HttpResponse, get, post_form}

module _ (F : Fvm) (C : Client F) where
  -- A request that the server answers with success
  abbrev pub Answered : HttpRequest → HttpResponse → C.Net → C.Net → Type 0
  Answered request response n m =
      (C.http request n ≡ (ok response, m)) × (response.is_success ≡ true)

  -- The test of the status
  abbrev judged : String → HttpResponse → Result HttpResponse
  judged message r =
      if r.is_success then ok r else (r.text >>=ʳ λ text. Result.err (message <> text))

  judged-eq-ok :
      (success : Bool) (text : Result String) (message : String) (r response : HttpResponse)
      → (if success then ok r else (text >>=ʳ λ e. Result.err (message <> e))) ≡ ok response
      → (success ≡ true) × (r ≡ response)
  judged-eq-ok true text message r response h = ground arith
  judged-eq-ok false (ok e) message r response h = cc
  judged-eq-ok false (err e) message r response h = cc
  judged-eq-ok false (panic e) message r response h = cc

  send-eq-ok :
      (request : HttpRequest) (message : String) (n m : C.Net) (response : HttpResponse)
      → send F C request message n ≡ (ok response, m)
      → Answered request response n m
  unfolding send
  send-eq-ok request message n m response h =
      let (r, t, e, k) = >>=-eq-ok (C.http request) (λ answer. lift (judged message answer)) n h in
      let (fine, last) = lift-eq-ok (judged message r) t k in
      let (success, same) = judged-eq-ok r.is_success r.text message r response fine in
      ground (arith, e, same, last, success)

  -- A part of an answer
  received-eq-ok :
      {A : Type 0} (request : HttpRequest) (message : String) (part : HttpResponse → Result A)
      (n m : C.Net) (a : A)
      → (send F C request message >>= (λ response. lift (part response))) n ≡ (ok a, m)
      → (response : HttpResponse) × Answered request response n m × (part response ≡ ok a)
  received-eq-ok request message part n m a h =
      let (response, t, e, k) =
        >>=-eq-ok (send F C request message) (λ response. lift (part response)) n h in
      let (read, same) = lift-eq-ok (part response) t k in
      (response, send-eq-ok request message n m response (ground arith), read)

  pub upload-eq-ok :
      (objects : Option String) (body : ByteStream) (size : ℕ) (n m : C.Net)
      (answer : UploadResponse)
      → upload F C objects body size n ≡ (ok answer, m)
      → (url : String) × (response : HttpResponse) × (objects ≡ some url)
        × Answered (post_form (url <> "v1/objects") (show size) body) response n m
        × (response.upload_response ≡ ok answer)
  unfolding upload
  upload-eq-ok none body size n m answer h = cc
  upload-eq-ok (some url) body size n m answer h =
      let (response, sent, read) =
        received-eq-ok (post_form (url <> "v1/objects") (show size) body)
          "failed to upload object: " (λ r. r.upload_response) n m answer h in
      (url, response, refl, sent, read)

  pub get_node_addr-eq-ok :
      (objects : Option String) (n m : C.Net) (answer : NodeAddr)
      → get_node_addr F C objects n ≡ (ok answer, m)
      → (url : String) × (response : HttpResponse) × (objects ≡ some url)
        × Answered (get (url <> "v1/node") none) response n m
        × (response.node_addr ≡ ok answer)
  unfolding get_node_addr
  get_node_addr-eq-ok none n m answer h = cc
  get_node_addr-eq-ok (some url) n m answer h =
      let (response, sent, read) =
        received-eq-ok (get (url <> "v1/node") none) "failed to get node address info: "
          (λ r. r.node_addr) n m answer h in
      (url, response, refl, sent, read)
