-- ===== src/Provider/Query.antt =====
-- provider/src/query.rs: the provided methods of `QueryProvider`, over the required `query`.
pub mod Extract
pub mod Laws
use rust_recall.Base.{ℕ, String, Option, List, Result, ok, context, map_ok}
use rust_recall.Base.Action.{Action, ◌>>=◌, lift, pure}
use rust_recall.Fvm.{
  Bytes, Message, FvmQuery, call, estimate_gas, actor_state, ipld, state_params, builtin_actors,
  FvmQueryHeight, ActorState, StateParams, DeliverTx, Fvm,
}
use rust_recall.Provider.Traits.{QueryProvider}
use Extract.{extract, extract_opt, parse_deliver_tx, extract_actor_state, extract_gas_limit}

pub record QueryResponse (T : Type 0) : Type 0 where
  pub height : ℕ
  pub value : T

module _ (F : Fvm) {N : Type 0} (P : QueryProvider F N) where
  -- `QueryProvider::call`
  unfoldable pub call_actor :
      {T : Type 0}
      → Message F.Address
      → FvmQueryHeight
      → (DeliverTx → Result T)
      → Action N (QueryResponse T)
  unfolding extract parse_deliver_tx
  call_actor message at f = do
    res ← P.query (call message) at
    tx ← lift (extract res (parse_deliver_tx F))
    value ← lift (f tx)
    pure (record { height = res.height; value = value })

  unfoldable pub estimate_gas_limit : Message F.Address → FvmQueryHeight → Action N ℕ
  unfolding extract_gas_limit
  estimate_gas_limit message at = do
    res ← P.query (estimate_gas (record message { sequence = 0 })) at
    lift (extract_gas_limit F res)

  -- `QueryProvider::actor_state`
  unfoldable pub get_actor_state :
      F.Address → FvmQueryHeight → Action N (QueryResponse (Option (ℕ × ActorState)))
  unfolding extract_actor_state
  get_actor_state address at = do
    res ← P.query (actor_state address) at
    value ← lift (extract_actor_state F res)
    pure (record { height = res.height; value = value })

  -- `QueryProvider::ipld`
  unfoldable pub get_ipld : F.Cid → FvmQueryHeight → Action N (Option Bytes)
  unfolding extract_opt
  get_ipld cid at = do res ← P.query (ipld cid) at; lift (extract_opt F res (λ r. ok r.value))

  -- `QueryProvider::state_params`
  unfoldable pub get_state_params : FvmQueryHeight → Action N (QueryResponse StateParams)
  unfolding extract
  get_state_params at = do
    res ← P.query state_params at
    value ← lift (
        extract res
          (λ r. context (F.decode_state_params r.value) "failed to decode StateParams from query"))
    pure (record { height = res.height; value = value })

  -- `QueryProvider::builtin_actors`
  unfoldable pub get_builtin_actors :
      FvmQueryHeight → Action N (QueryResponse (List (String × F.Cid)))
  unfolding extract
  get_builtin_actors at = do
    res ← P.query builtin_actors at
    value ← lift (
        extract res
          (λ r. context (F.decode_registry r.value) "failed to decode BuiltinActors from query"))
    pure (record { height = res.height; value = value })
