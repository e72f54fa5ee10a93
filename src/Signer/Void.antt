-- ===== src/Signer/Void.antt =====
-- signer/src/void.rs: a signer that only has an address.
use rust_recall.Base.{none, err}
use rust_recall.Base.Action.{fail}
use rust_recall.Fvm.{Fvm}
use rust_recall.Signer.Traits.{Signer}

unfoldable pub void_signer : (F : Fvm) {N : Type 0} → F.Address → Signer F N
void_signer F address = record {
  address = address;
  secret_key = none;
  subnet_id = none;
  send_transaction = λ provider to value method_num params gas_params mode decode.
      fail "void signer cannot create transactions";
  sign_message = λ message. err "void signer cannot sign messages";
  verify_message = λ message signature. err "void signer cannot verify messages";
}
