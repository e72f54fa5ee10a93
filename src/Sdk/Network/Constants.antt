-- ===== src/Sdk/Network/Constants.antt =====
-- sdk/src/network.rs: the texts of the presets.
use rust_recall.Base.{String}

abbrev pub devnet_subnet_id : String
devnet_subnet_id = "test"

abbrev pub devnet_evm_rpc_url : String
devnet_evm_rpc_url = "http://127.0.0.1:8545"

abbrev pub devnet_evm_gateway_address : String
devnet_evm_gateway_address = "0x77aa40b105843728088c0132e43fc44348881da8"

abbrev pub devnet_evm_registry_address : String
devnet_evm_registry_address = "0x74539671a1d2f1c8f200826baba665179f53a1b7"

abbrev pub localnet_rpc_url : String
localnet_rpc_url = "http://127.0.0.1:26657"

abbrev pub localnet_subnet_id : String
localnet_subnet_id = "/r31337/t410f6gbdxrbehnaeeo4mrq7wc5hgq6smnefys4qanwi"

abbrev pub localnet_evm_rpc_url : String
localnet_evm_rpc_url = "http://127.0.0.1:8645"

abbrev pub localnet_object_api_url : String
localnet_object_api_url = "http://127.0.0.1:8001"

abbrev pub localnet_evm_gateway_address : String
localnet_evm_gateway_address = "0x77aa40b105843728088c0132e43fc44348881da8"

abbrev pub localnet_evm_registry_address : String
localnet_evm_registry_address = "0x74539671a1d2f1c8f200826baba665179f53a1b7"

abbrev pub localnet_evm_supply_source_address : String
localnet_evm_supply_source_address = "0x4A679253410272dd5232B3Ff7cF5dbB88f295319"

abbrev pub localnet_parent_evm_rpc_url : String
localnet_parent_evm_rpc_url = "http://127.0.0.1:8545"

abbrev pub localnet_parent_evm_gateway_address : String
localnet_parent_evm_gateway_address = "0x9A676e781A523b5d0C0e43731313A708CB607508"

abbrev pub localnet_parent_evm_registry_address : String
localnet_parent_evm_registry_address = "0x322813Fd9A801c5507c9de605d63CEA4f2CE6c44"

abbrev pub testnet_rpc_url : String
testnet_rpc_url = "https://api.node-0.testnet.recall.network"

abbrev pub testnet_object_api_url : String
testnet_object_api_url = "https://objects.node-0.testnet.recall.network"

abbrev pub testnet_evm_rpc_url : String
testnet_evm_rpc_url = "https://evm.node-0.testnet.recall.network"

abbrev pub testnet_subnet_id : String
testnet_subnet_id = "/r314159/t410f6mgygsxksvrptmf43vaopcwmni4tbw7jx3mo4gi"

abbrev pub testnet_parent_evm_rpc_url : String
testnet_parent_evm_rpc_url = "https://api.calibration.node.glif.io/rpc/v1"

abbrev pub testnet_parent_evm_gateway_address : String
testnet_parent_evm_gateway_address = "0x83BaA1161529413e1c61D7b66BD252Bc5c10A6Cd"

abbrev pub testnet_parent_evm_registry_address : String
testnet_parent_evm_registry_address = "0x7e974301C8a8aB3502AaB1ed36f155354c84505f"

abbrev pub testnet_evm_supply_source_address : String
testnet_evm_supply_source_address = "0xF084d7543d3B1c3beb2a1D26b5Ae554051D797F9"

abbrev pub testnet_evm_gateway_address : String
testnet_evm_gateway_address = "0x77aa40b105843728088c0132e43fc44348881da8"

abbrev pub testnet_evm_registry_address : String
testnet_evm_registry_address = "0x74539671a1d2f1c8f200826baba665179f53a1b7"
