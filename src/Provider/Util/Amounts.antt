-- ===== src/Provider/Util/Amounts.antt =====
-- provider/src/util.rs: amounts of tokens and credits. Decimals and big integers are those of the
-- `rust_decimal` and `num_bigint` crates.
use rust_recall.Base.{ℕ, String, ◌<>◌, Option, Result, ok_or, ◌>>=◌, ◌^◌}
use rust_recall.Base.Int.{ℤ}

pub record Numbers : Type 1 where
  pub Decimal : Type 0
  pub parse_decimal : String → Result Decimal
  -- `Decimal::new(mantissa, 0)`
  pub of_ℕ : ℕ → Decimal
  pub checked_mul : Decimal → Decimal → Option Decimal
  -- `trunc().to_string()`
  pub show_trunc : Decimal → String
  pub parse_big_int : String → Result ℤ
  -- `Credit::from_whole`, in atto
  pub credit_from_whole : ℤ → ℤ

module _ (D : Numbers) where
  -- A decimal number of tokens, in atto.
  unfoldable pub parse_token_amount : String → Result ℤ
  parse_token_amount s = do
    decimal ← D.parse_decimal s
    attos ←
        ok_or (D.checked_mul decimal (D.of_ℕ (10 ^ 18)))
          ("overflow occurred when scaling '" <> s <> "'")
    D.parse_big_int (D.show_trunc attos)

  unfoldable pub parse_token_amount_from_atto : String → Result ℤ
  parse_token_amount_from_atto s = D.parse_big_int s

  unfoldable pub parse_credit_amount : String → Result ℤ
  parse_credit_amount s = do whole ← D.parse_big_int s; Result.ok (D.credit_from_whole whole)

  unfoldable pub parse_token_credit_rate : String → Result ℤ
  parse_token_credit_rate s = D.parse_big_int s
