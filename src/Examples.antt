-- ===== src/Examples.antt =====
-- sdk/examples: the programs that show how the sdk is used.
pub mod Process
pub mod AccountCreate
pub mod Account
pub mod TimehubPush
pub mod BucketAdd
pub mod Credits
pub mod Counting
pub mod Transactions
pub mod Ends
