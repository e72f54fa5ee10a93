-- ===== src/Signer/Wallet/Schedule/Sequences.antt =====
-- The sequences of what the provider is given in a run of tasks.
use mathlib.Core.Path.{subst}
use mathlib.Core.List.{append_assoc, append-nil}
use rust_recall.Base.{
  ℕ, zero, suc, ◌+◌, ◌%◌, ◌<◌, ◌≤◌, List, [], ◌∷◌, ◌++◌, some, Result, ok, inl, inr, ◌≡◌, ◌≢◌, sym,
  ◌∙◌, ap, arith, length, get_elem?,
}
use rust_recall.Base.Text.{u64_mod}
use rust_recall.Fvm.{Message, DeliverTx, Fvm}
use rust_recall.Provider.Tx.{BroadcastMode}
use rust_recall.Provider.Traits.{Provider}
use rust_recall.Signer.Wallet.{Wallet, sign_message}
use rust_recall.Signer.Wallet.Schedule.{System, Event, step, run}
use rust_recall.Signer.Wallet.Schedule.Recorded.{
  Recording, recording, SignedWith, Unsigned, step-Step,
}

module _ (F : Fvm) (wallet : Wallet F) where
  -- What is given to the provider while so many sequences are taken, from `a` on
  data Given : ℕ → ℕ → List F.SignedMessage → Type 0 where
    none_taken : {a : ℕ} → Given a 0 []
    failed :
        {a u : ℕ} {l : List F.SignedMessage}
        → Unsigned F wallet (a % u64_mod)
        → Given (suc a) u l
        → Given a (suc u) l
    given :
        {a u : ℕ} {l : List F.SignedMessage} {m : F.SignedMessage}
        → SignedWith F wallet (a % u64_mod) m
        → Given (suc a) u l
        → Given a (suc u) (m ∷ l)

  -- The sequence of the `k`th message
  abbrev At : ℕ → ℕ → F.SignedMessage → Type 0
  At a o m = SignedWith F wallet ((a + o) % u64_mod) m

  move : (a o : ℕ) (m : F.SignedMessage) → At (suc a) o m → At a (suc o) m
  move a o m h =
      let e : (suc a + o) % u64_mod ≡ (a + suc o) % u64_mod = omega arith in
      subst (λ n. SignedWith F wallet n m) e h

  first :
      (a : ℕ) {x m : F.SignedMessage}
      → some x ≡ some m
      → SignedWith F wallet (a % u64_mod) x
      → At a 0 m
  first a {x} {m} e at =
      let same : x ≡ m = cc in
      let zero_on : a % u64_mod ≡ (a + 0) % u64_mod = omega arith in
      subst (λ n. SignedWith F wallet n m) zero_on
        (subst (λ y. SignedWith F wallet (a % u64_mod) y) same at)

  found :
      {a u : ℕ} {l : List F.SignedMessage} (k : ℕ) {m : F.SignedMessage}
      → Given a u l
      → get_elem? l k ≡ some m
      → (o : ℕ) × (k ≤ o) × (o < u) × At a o m
  found k none_taken e = cc
  found k {m} (failed {a = a} x g) e =
      let (o, le, lt, at) = found k g e in (suc o, omega arith, omega arith, move a o m at)
  found zero {m} (given {a = a} at g) e = (0, omega arith, omega arith, first a e at)
  found (suc k) {m} (given {a = a} x g) e =
      let (o, le, lt, at) = found k g e in (suc o, omega arith, omega arith, move a o m at)

  -- A later message has a later sequence.
  two_found :
      {a u : ℕ} {l : List F.SignedMessage} (j k : ℕ) {m n : F.SignedMessage}
      → Given a u l
      → j < k
      → get_elem? l j ≡ some m
      → get_elem? l k ≡ some n
      → (o p : ℕ) × (o < p) × (p < u) × At a o m × At a p n
  two_found j k none_taken jk ej ek = cc
  two_found j k {m} {n} (failed {a = a} x g) jk ej ek =
      let (o, p, op, pu, at_o, at_p) = two_found j k g jk ej ek in
      (suc o, suc p, omega arith, omega arith, move a o m at_o, move a p n at_p)
  two_found zero zero (given x g) jk ej ek = absurd (omega arith)
  two_found zero (suc k) {m} {n} (given {a = a} x g) jk ej ek =
      let (p, le, lt, at) = found k g ek in
      (0, suc p, omega arith, omega arith, first a ej x, move a p n at)
  two_found (suc j) zero (given x g) jk ej ek = absurd (omega arith)
  two_found (suc j) (suc k) {m} {n} (given {a = a} x g) jk ej ek =
      let (o, p, op, pu, at_o, at_p) = two_found j k g (omega arith) ej ek in
      (suc o, suc p, omega arith, omega arith, move a o m at_o, move a p n at_p)

  -- Every message can be signed.
  abbrev pub CanSign : Type 0
  CanSign =
      (message : Message F.Address) → (m : F.SignedMessage) × (sign_message F wallet message ≡ ok m)

  not-Unsigned : (n : ℕ) → CanSign → ¬ Unsigned F wallet n
  not-Unsigned n can (message, f) = let (m, e) = can (record message { sequence = n }) in rw e at f

  exact :
      {a u : ℕ} {l : List F.SignedMessage} (k : ℕ) {m : F.SignedMessage}
      → CanSign
      → Given a u l
      → get_elem? l k ≡ some m
      → At a k m
  exact k can none_taken e = cc
  exact k can (failed {a = a} x g) e = absurd (not-Unsigned (a % u64_mod) can x)
  exact zero can (given {a = a} x g) e = first a e x
  exact (suc k) {m} can (given {a = a} x g) e = move a k m (exact k can g e)

module _ (F : Fvm) {N T : Type 0} (P : Provider F N) (mode : BroadcastMode)
    (decode : DeliverTx → Result T) (wallet : Wallet F) where
  abbrev after : List (Event F) → System F (Recording F N) → System F (Recording F N)
  after = run F (recording F P) mode decode wallet

  -- What a run gives to the provider, after what it was given before
  record Gives (a : ℕ) (events : List (Event F)) (s t : System F (Recording F N)) : Type 0 where
    pub used : ℕ
    pub messages : List F.SignedMessage
    pub are_given : Given F wallet a used messages
    pub at_most : used ≤ length events
    pub log : t.world.net.1 ≡ s.world.net.1 ++ messages

  run-Gives :
      (events : List (Event F)) (s : System F (Recording F N)) (a : ℕ)
      → s.world.cells wallet.sequence ≡ a % u64_mod
      → Gives a events s (after events s)
  unfolding run
  run-Gives [] s a c = record {
    used = 0;
    messages = [];
    are_given = none_taken;
    at_most = omega arith;
    log = sym (append-nil s.world.net.1);
  }
  run-Gives (e ∷ events) s a c =
      let t = step F (recording F P) mode decode wallet e s in
      elim (step-Step F P mode decode wallet e s) [
        | inl same ↦
            let h = run-Gives events t a (ap (λ x. x.next) same ∙ c) in
            record {
              used = h.used;
              messages = h.messages;
              are_given = h.are_given;
              at_most = ground (arith, h.at_most);
              log = h.log ∙ ap (λ x. x.issued ++ h.messages) same;
            }
        | inr (n, inl (m, x, i)) ↦
            let h = run-Gives events t (suc a) (n ∙ omega arith) in
            record {
              used = suc h.used;
              messages = m ∷ h.messages;
              are_given = given (subst (λ y. SignedWith F wallet y m) c x) h.are_given;
              at_most = ground (arith, h.at_most);
              log =
                  h.log
                  ∙ ap (λ l. l ++ h.messages) i
                  ∙ append_assoc s.world.net.1 (m ∷ []) h.messages;
            }
        | inr (n, inr (x, i)) ↦
            let h = run-Gives events t (suc a) (n ∙ omega arith) in
            record {
              used = suc h.used;
              messages = h.messages;
              are_given = failed (subst (λ y. Unsigned F wallet y) c x) h.are_given;
              at_most = ground (arith, h.at_most);
              log = h.log ∙ ap (λ l. l ++ h.messages) i;
            }
      ]

  -- The messages that the provider is given in a run: those of the sequences from `a` on
  given-all :
      (a : ℕ) (events : List (Event F)) (s : System F (Recording F N))
      → s.world.net.1 ≡ []
      → (h : Gives a events s (after events s)) → (after events s).world.net.1 ≡ h.messages
  given-all a events s none_yet h = h.log ∙ ap (λ l. l ++ h.messages) none_yet

  -- Start with nothing given to the provider and a sequence below 2^64, and let every message be one
  -- that can be signed. However the tasks of a wallet are then interleaved, and whichever of their
  -- estimates and broadcasts fail, the signed messages that the provider is given to broadcast are
  -- signed with consecutive sequences, modulo 2^64, in the order in which they are given, from the
  -- wallet's sequence at the start on.
  pub run-sequence :
      (events : List (Event F)) (s : System F (Recording F N)) (k : ℕ) {m : F.SignedMessage}
      → CanSign F wallet
      → s.world.net.1 ≡ []
      → s.world.cells wallet.sequence < u64_mod
      → get_elem? (after events s).world.net.1 k ≡ some m
      → SignedWith F wallet ((s.world.cells wallet.sequence + k) % u64_mod) m
  run-sequence events s k {m} can none_yet small e =
      let start = s.world.cells wallet.sequence in
      let h = run-Gives events s start (omega arith) in
      exact F wallet k can h.are_given
        (subst (λ l. get_elem? l k ≡ some m) (given-all start events s none_yet h) e)

  -- Start with nothing given to the provider and a sequence below 2^64, and run at most 2^64 turns.
  -- Two messages that the provider is given to broadcast, at different places, are signed with
  -- different sequences, whatever fails, signatures included.
  pub run-sequence_ne :
      (events : List (Event F)) (s : System F (Recording F N)) (j k : ℕ) {m n : F.SignedMessage}
      → s.world.net.1 ≡ []
      → s.world.cells wallet.sequence < u64_mod
      → length events ≤ u64_mod
      → j < k
      → get_elem? (after events s).world.net.1 j ≡ some m
      → get_elem? (after events s).world.net.1 k ≡ some n
      → (a b : ℕ) × (a ≢ b) × SignedWith F wallet a m × SignedWith F wallet b n
  run-sequence_ne events s j k {m} {n} none_yet small few jk ej ek =
      let start = s.world.cells wallet.sequence in
      let h = run-Gives events s start (omega arith) in
      let all = given-all start events s none_yet h in
      let (o, p, op, pu, at_o, at_p) =
        two_found F wallet j k h.are_given jk (subst (λ l. get_elem? l j ≡ some m) all ej)
          (subst (λ l. get_elem? l k ≡ some n) all ek) in
      let below = h.at_most in
      (
        (start + o) % u64_mod,
        (start + p) % u64_mod,
        λ same. omega (arith, same, op, pu, below, few),
        at_o,
        at_p,
      )
