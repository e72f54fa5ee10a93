-- ===== src/Examples/Ends.antt =====
-- How the programs of sdk/examples end.
use rust_recall.Base.{ℕ, String, List, [], ◌∷◌, ok, IsFailure, ◌≡◌, refl, arith}
use rust_recall.Fvm.{Bytes, Fvm}
use rust_recall.Provider.Tx.{TxResult}
use rust_recall.Provider.JsonRpc.{JsonRpcProvider, json_rpc_provider}
use rust_recall.Signer.World.{World}
use rust_recall.Signer.Wallet.{Wallet, wallet_signer}
use rust_recall.Sdk.Codecs.{PushReturn}
use rust_recall.Sdk.Machine.{Machine}
use rust_recall.Sdk.Timehub as Timehub
use rust_recall.Sdk.Timehub.Push.{push_commit-returned}
use rust_recall.Cli.Shell.{Host}
use rust_recall.Examples.Process.{Crates, Process}
use rust_recall.Examples.TimehubPush.{default_options, pushed_index}
use rust_recall.Examples.BucketAdd.{key_argument, main}

module _ (F : Fvm) (H : Host F) (X : Crates F H) where
  -- The bucket example never succeeds, whatever its arguments: it demands exactly one besides its
  -- own name, and then reads a second one, which is not there. Nothing has happened before that.
  pub main-IsFailure :
      (args : List String) (s : Process F H)
      → IsFailure (main F H X args s).0 × ((main F H X args s).1 ≡ s)
  unfolding main key_argument
  main-IsFailure [] s = (tt, refl)
  main-IsFailure (program ∷ []) s = (tt, refl)
  main-IsFailure (program ∷ key ∷ []) s = (tt, refl)
  main-IsFailure (program ∷ key ∷ more ∷ rest) s = ground arith

  -- The timehub example does not panic where it unwraps the data of its push: a push that succeeds
  -- with the default options, through a wallet and the JSON RPC provider, has an index.
  pub pushed_index-ok :
      (p : JsonRpcProvider) (wallet : Wallet F) (machine : Machine F) (from : F.Address)
      (payload : Bytes) (w v : World H.client.Net) (tx : TxResult F (PushReturn F.Cid))
      → Timehub.push F H.codecs machine
          (json_rpc_provider F H.client p)
          (wallet_signer F wallet)
          from
          payload
          default_options
          w
        ≡ (ok tx, v)
      → (index : ℕ) × (pushed_index F tx ≡ ok index)
  unfolding pushed_index
  pushed_index-ok p wallet machine from payload w v tx h =
      let (_, (returned, e)) =
        push_commit-returned F H.codecs H.client p wallet machine from payload _ w v tx h in
      (returned.index, ground arith)
