-- ===== src/Provider/Broadcasts.antt =====
-- How often a provider broadcasts: what the callers of a provider rely on.
use rust_recall.Base.{ℕ, String, Result}
use rust_recall.Base.Action.Meter.{Meter, Costs, metered}
use rust_recall.Fvm.{FvmQuery, FvmQueryHeight, DeliverTx, ChainMessage, Message, Fvm}
use rust_recall.Provider.Tx.{BroadcastMode}
use rust_recall.Provider.Traits.{ByteStream, QueryProvider, Provider}
use rust_recall.Provider.Query.{call_actor, estimate_gas_limit, get_actor_state, get_state_params}

-- Only `perform` broadcasts: once if it succeeds, and at most once if it does not.
pub record BroadcastsOnce (F : Fvm) {N : Type 0} (M : Meter N) (P : Provider F N) : Type 1 where
  pub query_none :
      (q : FvmQuery F.Address F.Cid) (at : FvmQueryHeight) → Costs M 0 (P.queries.query q at)
  pub perform_once :
      {T : Type 0} (message : ChainMessage F.SignedMessage) (mode : BroadcastMode)
      (decode : DeliverTx → Result T)
      → Costs M 1 (P.perform message mode decode)
  pub node_addr_none : Costs M 0 P.node_addr
  pub upload_none : (body : ByteStream) (size : ℕ) → Costs M 0 (P.upload body size)
  pub download_none :
      (address : F.Address) (key : String) (range : _) (height : ℕ)
      → Costs M 0 (P.download address key range height)

module _ (F : Fvm) {N : Type 0} (M : Meter N) (Q : QueryProvider F N)
    (none : (q : FvmQuery F.Address F.Cid) (at : FvmQueryHeight) → Costs M 0 (Q.query q at)) where
  pub Costs-call_actor :
      {T : Type 0} (m : Message F.Address) (at : FvmQueryHeight) (f : DeliverTx → Result T)
      → Costs M 0 (call_actor F Q m at f)
  unfolding call_actor
  Costs-call_actor m at f = search (metered, none)

  pub Costs-estimate_gas_limit :
      (m : Message F.Address) (at : FvmQueryHeight) → Costs M 0 (estimate_gas_limit F Q m at)
  unfolding estimate_gas_limit
  Costs-estimate_gas_limit m at = search (metered, none)

  pub Costs-get_actor_state :
      (a : F.Address) (at : FvmQueryHeight) → Costs M 0 (get_actor_state F Q a at)
  unfolding get_actor_state
  Costs-get_actor_state a at = search (metered, none)

  pub Costs-get_state_params : (at : FvmQueryHeight) → Costs M 0 (get_state_params F Q at)
  unfolding get_state_params
  Costs-get_state_params at = search (metered, none)
