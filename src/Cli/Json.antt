-- ===== src/Cli/Json.antt =====
-- The JSON values that the command line builds (`json!`). A struct with a derived `Serialize` stands
-- as itself: how it is written is `serde_json`'s.
use rust_recall.Base.{ℕ, String, List, [], ◌∷◌}
use rust_recall.Base.Int.{ℤ}
use rust_recall.Actors.{Kind, Metadata}
use rust_recall.Fvm.{Bytes, Fvm}
use rust_recall.Sdk.Codecs.{Leaf}
use rust_recall.Sdk.Credits.Convert.{Balance}
use rust_recall.Sdk.Storage.{Usage, StorageStats}

mutual
  -- `R` is the receipt of an Ethereum transaction.
  pub data Json (F : Fvm) (R : Type 0) : Type 0 where
    null : Json F R
    text : String → Json F R
    num : ℕ → Json F R
    int : ℤ → Json F R
    kind : Kind → Json F R
    metadata : Metadata → Json F R
    eth_address : Bytes → Json F R
    cids : List F.Cid → Json F R
    leaf : Leaf F.Cid → Json F R
    credit_balance : Balance → Json F R
    storage_stats : StorageStats → Json F R
    storage_usage : Usage → Json F R
    transaction : F.Transaction → Json F R
    receipt : F.Receipt → Json F R
    evm_receipt : R → Json F R
    object : Fields F R → Json F R
    array : Items F R → Json F R

  pub data Fields (F : Fvm) (R : Type 0) : Type 0 where
    end : Fields F R
    field : String → Json F R → Fields F R → Fields F R

  pub data Items (F : Fvm) (R : Type 0) : Type 0 where
    nil : Items F R
    item : Json F R → Items F R → Items F R

module _ {F : Fvm} {R : Type 0} where
  abbrev pub fields : List (String × Json F R) → Fields F R
  fields [] = end
  fields (entry ∷ rest) = field entry.0 entry.1 (fields rest)

  -- `json!({...})`
  abbrev pub json_object : List (String × Json F R) → Json F R
  json_object entries = object (fields entries)

  abbrev pub items : List (Json F R) → Items F R
  items [] = nil
  items (j ∷ rest) = item j (items rest)

  abbrev pub json_array : List (Json F R) → Json F R
  json_array entries = array (items entries)

  add_field : String → Json F R → Fields F R → Fields F R
  add_field key value end = field key value end
  add_field key value (field k v rest) = field k v (add_field key value rest)

  -- `if let Value::Object(ref mut obj) = json { obj.insert(key, value) }`, for a new key
  unfoldable pub insert_field : String → Json F R → Json F R → Json F R
  unfolding add_field
  insert_field key value (object entries) = object (add_field key value entries)
  insert_field key value json = json
