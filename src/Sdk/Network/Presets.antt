-- ===== src/Sdk/Network/Presets.antt =====
-- The names and the presets of the networks.
use rust_recall.Base.{refl, String, none, ok, ◌≡◌, ◌≢◌, ◌↔◌, arith}
use text.Mathlib.TextEquality.{eq_iff}
use rust_recall.Fvm.{FvmNetwork, Fvm}
use rust_recall.Signer.Subnet.{chain_id, with_chain_id, parse_subnet_id}
use rust_recall.Sdk.Network.{
  Urls, Network, mainnet, testnet, localnet, devnet, parse_network, display_network, NetworkConfig,
  preset, config_of, get_config, init, testnet_chain_id, localnet_chain_id,
}

parse_network-named :
    (u s : String) (n : Network) → parse_network u s ≡ ok n → s ≡ display_network n
unfolding parse_network display_network
parse_network-named u s n h =
    ground (arith, eq_iff s "mainnet", eq_iff s "testnet", eq_iff s "localnet", eq_iff s "devnet")

parse_network-name : (u : String) (n : Network) → parse_network u (display_network n) ≡ ok n
unfolding parse_network display_network
parse_network-name u mainnet = refl
parse_network-name u testnet = refl
parse_network-name u localnet = refl
parse_network-name u devnet = refl

-- A text is read as a network exactly if it is the text that the network is displayed as.
pub parse_network-display_network :
    (unknown_network s : String) (n : Network)
    → (parse_network unknown_network s ≡ ok n) ↔ (s ≡ display_network n)
parse_network-display_network u s n =
    (parse_network-named u s n, λ e. rw e (parse_network-name u n))

module _ (F : Fvm) (U : Urls) where
  -- The chain ID of a network's preset
  abbrev pub PresetChain : Network → NetworkConfig F → Type 0
  PresetChain mainnet cfg = ⊥
  PresetChain testnet cfg =
      (chain_id F cfg.subnet_id ≡ testnet_chain_id) × (cfg.parent_network_config ≢ none)
  PresetChain localnet cfg =
      (chain_id F cfg.subnet_id ≡ localnet_chain_id) × (cfg.parent_network_config ≢ none)
  PresetChain devnet cfg =
      (parse_subnet_id F "test" ≡ ok cfg.subnet_id) × (cfg.parent_network_config ≡ none)

  preset-PresetChain :
      (n : Network) (cfg : NetworkConfig F) → preset F U n ≡ ok cfg → PresetChain n cfg
  unfolding preset config_of with_chain_id chain_id
  preset-PresetChain mainnet cfg h = ground arith
  preset-PresetChain testnet cfg h = ground arith
  preset-PresetChain localnet cfg h = ground arith
  preset-PresetChain devnet cfg h = ground arith

  -- The preset of a network, if it can be made: there is none for the mainnet; it sets the current
  -- network of addresses to the testnet, whatever it was; the chain ID of the testnet and the
  -- localnet is the fixed one, whatever their subnet IDs hold, and only these two have a parent.
  pub get_config-PresetChain :
      (n : Network) (current after : FvmNetwork) (cfg : NetworkConfig F)
      → get_config F U n current ≡ (ok cfg, after)
      → (n ≢ mainnet) × (after ≡ FvmNetwork.testnet) × PresetChain n cfg
  unfolding get_config init
  get_config-PresetChain mainnet current after cfg h =
      absurd (preset-PresetChain mainnet cfg (ground arith))
  get_config-PresetChain testnet current after cfg h =
      (ground arith, ground arith, preset-PresetChain testnet cfg (ground arith))
  get_config-PresetChain localnet current after cfg h =
      (ground arith, ground arith, preset-PresetChain localnet cfg (ground arith))
  get_config-PresetChain devnet current after cfg h =
      (ground arith, ground arith, preset-PresetChain devnet cfg (ground arith))
