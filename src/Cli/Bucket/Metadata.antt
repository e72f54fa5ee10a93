-- ===== src/Cli/Bucket/Metadata.antt =====
-- The metadata of a new bucket.
use rust_recall.Base.{String, Option, none, some, ◌≡◌, if◌then◌else◌, arith}
use rust_recall.Base.Text.{str_eq}
use rust_recall.Fvm.{Fvm}
use rust_recall.Sdk.Credits.Convert.{insert, collect}
use rust_recall.Sdk.Credits.Convert.Lookup.{lookup, last_value, lookup-insert, lookup-collect}
use rust_recall.Cli.Bucket.{BucketCreateArgs, create_metadata}

abbrev pub alias_or : Option String → Option String → Option String
alias_or none other = other
alias_or (some alias) other = some alias

-- A new bucket has, for each key, the value that `--metadata` gives it last; but the key `alias` has
-- the value of `--alias`, if that is given, whatever `--metadata` says of it.
pub create_metadata-lookup :
    (F : Fvm) (args : BucketCreateArgs F) (k : String)
    → lookup k (create_metadata F args) ≡ (
        if str_eq "alias" k
        then alias_or args.alias (last_value k args.metadata none)
        else last_value k args.metadata none)
unfolding create_metadata
create_metadata-lookup F args k = go args.alias
  where
    go :
        (alias : Option String)
        → lookup k (elim alias [
          | none ↦ collect args.metadata
          | some a ↦ insert "alias" a (collect args.metadata)
        ])
          ≡ (if str_eq "alias" k
              then alias_or alias (last_value k args.metadata none)
              else last_value k args.metadata none)
    go none = ground (arith, lookup-collect k args.metadata)
    go (some a) =
        ground
          (arith, lookup-insert k "alias" a (collect args.metadata), lookup-collect k args.metadata)
