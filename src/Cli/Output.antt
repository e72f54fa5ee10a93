-- ===== src/Cli/Output.antt =====
-- What the commands of cli/src write to standard output.
pub mod Commands
pub mod Main
use rust_recall.Base.{
  String, List, [], ◌∷◌, ◌++◌, ◌≡◌, refl, sym, ◌∙◌, Result, ok, inl, inr, Result-cases, arith,
}
use rust_recall.Base.Action.{Action, ◌>>=◌, lift, pure}
use mathlib.Core.Path.{subst}
use rust_recall.Fvm.{Fvm}
use rust_recall.Provider.Tx.{TxResult}
use rust_recall.Signer.World.{World}
use rust_recall.Cli.Json.{Json}
use rust_recall.Cli.Shell.{
  Host, Shell, Output, line, on_world, on_node, on_evm, write, print_json, print_tx_json,
}

-- One line more if the command succeeds, and nothing if it fails.
abbrev pub OneLine : Result (Unit {0}) → List Output → List Output → Type 0
OneLine (ok a) before after = (l : String) × (after ≡ before ++ line l ∷ [])
OneLine _ before after = after ≡ before

module _ (F : Fvm) (H : Host F) where
  -- Nothing is written.
  pub record Quiet {ℓ} {A : Type ℓ} (m : Action (Shell F H) A) : Type ℓ where
    pub unwritten : (s : Shell F H) → (m s).1.printed ≡ s.printed

  pub record Reports (m : Action (Shell F H) (Unit {0})) : Type 0 where
    pub written : (s : Shell F H) → OneLine (m s).0 s.printed (m s).1.printed

  module _ {ℓ} {A : Type ℓ} where
    pub Quiet-lift : (r : Result A) → Quiet (lift r)
    Quiet-lift r = record { unwritten = λ s. refl }

    pub Quiet-pure : (a : A) → Quiet (pure a)
    Quiet-pure a = record { unwritten = λ s. refl }

    pub Quiet-on_world : (m : Action (World H.client.Net) A) → Quiet (on_world F H m)
    Quiet-on_world m = record { unwritten = λ s. refl }

    pub Quiet-on_node : (m : Action H.client.Net A) → Quiet (on_node F H m)
    Quiet-on_node m = record { unwritten = λ s. refl }

    pub Quiet-on_evm : (m : Action H.evm.N A) → Quiet (on_evm F H m)
    Quiet-on_evm m = record { unwritten = λ s. refl }

  module _ {ℓ} {A : Type ℓ} {m : Action (Shell F H) A} where
    pub Quiet->>= {κ} :
        {B : Type κ} {f : A → Action (Shell F H) B}
        → Quiet m
        → ((a : A) → Quiet (f a))
        → Quiet (m >>= f)
    Quiet->>= {B} {f} q g = record {
      unwritten = λ s. elim (Result-cases (m s).0) [
        | inl (a, e) ↦ ground (arith, q.unwritten s, (g a).unwritten (m s).1)
        | inr (inl (x, e)) ↦ ground (arith, q.unwritten s)
        | inr (inr (x, e)) ↦ ground (arith, q.unwritten s)
      ];
    }

    pub Reports->>= :
        {f : A → Action (Shell F H) (Unit {0})}
        → Quiet m
        → ((a : A) → Reports (f a))
        → Reports (m >>= f)
    Reports->>= {f} q g = record {
      written = λ s. elim (Result-cases (m s).0) [
        | inl (a, e) ↦
            rw (◌>>=◌, e)
              (subst (λ o. OneLine (f a (m s).1).0 o (f a (m s).1).1.printed) (q.unwritten s)
                ((g a).written (m s).1))
        | inr (inl (x, e)) ↦ rw (◌>>=◌, e) (q.unwritten s)
        | inr (inr (x, e)) ↦ rw (◌>>=◌, e) (q.unwritten s)
      ];
    }

  Reports-line : (l : String) → Reports (write F H (line l))
  unfolding write
  Reports-line l = record { written = λ s. (l, refl) }

  pub Reports-print_json : (j : Json F H.evm.Receipt) → Reports (print_json F H j)
  unfolding print_json write
  Reports-print_json j =
      Reports->>= (Quiet-lift (H.to_string_pretty j)) (λ json. unfold write in Reports-line json)

  pub Reports-print_tx_json : {T : Type 0} (tx : TxResult F T) → Reports (print_tx_json F H tx)
  unfolding print_tx_json
  Reports-print_tx_json tx = Reports->>= (Quiet-lift _) Reports-line

  pub ruleset quiet = (
    Quiet-lift, Quiet-pure, Quiet-on_world, Quiet-on_node, Quiet-on_evm, Quiet->>=, Reports->>=,
    Reports-print_json, Reports-print_tx_json,
  )
