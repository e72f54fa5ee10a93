-- ===== src/Signer/World.antt =====
-- The state that a signer works on: the network behind its provider, and the mutexes that hold the
-- sequences. `Arc::clone` copies the number of a cell, so the clones of a wallet share its sequence.
use rust_recall.Base.{ℕ, suc, ok, if◌then◌else◌, ◌==◌}
use rust_recall.Base.Action.{Action}

pub record World (N : Type 0) : Type 0 where
  pub net : N
  pub cells : ℕ → ℕ
  -- the number of the next new cell
  pub next : ℕ

module _ {N : Type 0} where
  -- A call of the provider leaves the cells alone.
  abbrev pub on_net {ℓ} : {A : Type ℓ} → Action N A → Action (World N) A
  on_net m w = let (r, n) = m w.net in (r, record w { net = n })

  -- `Arc::new(Mutex::new(v))`
  unfoldable pub new_cell : ℕ → Action (World N) ℕ
  new_cell v w =
      (ok w.next, record w { cells = λ j. if w.next == j then v else w.cells j; next = suc w.next })

  -- `*guard`, and `*guard = v`
  abbrev pub read_cell : ℕ → Action (World N) ℕ
  read_cell i w = (ok (w.cells i), w)

  unfoldable pub write_cell : ℕ → ℕ → Action (World N) (Unit {0})
  write_cell i v w = (ok tt, record w { cells = λ j. if i == j then v else w.cells j })
