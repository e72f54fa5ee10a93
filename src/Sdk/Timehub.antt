-- ===== src/Sdk/Timehub.antt =====
-- sdk/src/machine/timehub.rs: the machine that accumulates events.
pub mod Push
use rust_recall.Base.{ℕ, List, [], Option, Result, if◌then◌else◌, length, ltb, ◌*◌, ◌<>◌}
use rust_recall.Base.Int.{pos}
use rust_recall.Base.Text.{show}
use rust_recall.Base.Action.{Action, ◌>>=◌, lift, fail}
use rust_recall.Actors.{
  push as push_method, get, count as count_method, peaks as peaks_method, root as root_method,
  push_params, leaf_index,
}
use rust_recall.Fvm.{Bytes, DeliverTx, FvmQueryHeight, Fvm}
use rust_recall.Provider.Tx.{TxResult}
use rust_recall.Provider.Traits.{QueryProvider, Provider}
use rust_recall.Signer.World.{World}
use rust_recall.Signer.Traits.{Signer}
use rust_recall.Sdk.Codecs.{PushReturn, Leaf, Codecs}
use rust_recall.Sdk.Call.{TxOptions, decode_with, read_actor, transact}
use rust_recall.Sdk.Machine.{Machine}

-- The most bytes of one event
abbrev pub max_acc_payload_size : ℕ
max_acc_payload_size = 1024 * 500

module _ (F : Fvm) (K : Codecs F) where
  unfoldable pub decode_push_return : DeliverTx → Result (PushReturn F.Cid)
  decode_push_return = decode_with F K.push_return "error parsing as PushReturn"

  decode_leaf : DeliverTx → Result (Option (Leaf F.Cid))
  decode_leaf = decode_with F K.leaf "error parsing leaf"

  decode_count : DeliverTx → Result ℕ
  decode_count = decode_with F K.leaf_count "error parsing as u64"

  decode_peaks : DeliverTx → Result (List F.Cid)
  decode_peaks = decode_with F K.cid_list "error parsing as Vec<Cid>"

  decode_root : DeliverTx → Result F.Cid
  decode_root = decode_with F K.cid "error parsing as Cid"

  module _ {N : Type 0} where
    unfoldable pub push :
        Machine F
        → Provider F N
        → Signer F N
        → F.Address
        → Bytes
        → TxOptions
        → Action (World N) (TxResult F (PushReturn F.Cid))
    push timehub provider signer from payload options =
        if ltb max_acc_payload_size (length payload)
        then fail ("max payload size is " <> (show max_acc_payload_size <> " bytes"))
        else transact F provider signer timehub.address (pos 0) push_method
            (push_params payload from) options decode_push_return

    unfoldable pub leaf :
        Machine F → QueryProvider F N → ℕ → FvmQueryHeight → Action N (Option (Leaf F.Cid))
    unfolding decode_leaf
    leaf timehub provider index at = do
      params ← lift (F.serialize (leaf_index index))
      read_actor F provider timehub.address get params at decode_leaf

    unfoldable pub count : Machine F → QueryProvider F N → FvmQueryHeight → Action N ℕ
    unfolding decode_count
    count timehub provider at =
        read_actor F provider timehub.address count_method [] at decode_count

    unfoldable pub peaks : Machine F → QueryProvider F N → FvmQueryHeight → Action N (List F.Cid)
    unfolding decode_peaks
    peaks timehub provider at =
        read_actor F provider timehub.address peaks_method [] at decode_peaks

    unfoldable pub root : Machine F → QueryProvider F N → FvmQueryHeight → Action N F.Cid
    unfolding decode_root
    root timehub provider at = read_actor F provider timehub.address root_method [] at decode_root
