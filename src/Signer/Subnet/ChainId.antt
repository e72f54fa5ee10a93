-- ===== src/Signer/Subnet/ChainId.antt =====
-- Which chain ID a subnet ID stands for.
use rust_recall.Base.{ℕ, ◌≡◌, refl}
use rust_recall.Fvm.{Fvm}
use rust_recall.Signer.Subnet.{SubnetId, chain_id, with_chain_id, display, parent}

module _ (F : Fvm) where
  -- An explicit chain ID takes the place of any other, is not displayed, and is lost by the parent.
  pub chain_id-with_chain_id :
      (id : SubnetId F) (c : ℕ)
      → (chain_id F (with_chain_id F id c) ≡ c)
        × (display F (with_chain_id F id c) ≡ display F id)
        × (parent F (with_chain_id F id c) ≡ parent F id)
  unfolding chain_id with_chain_id display parent
  chain_id-with_chain_id id c = (refl, refl, refl)
