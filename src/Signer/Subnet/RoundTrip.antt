-- ===== src/Signer/Subnet/RoundTrip.antt =====
-- A subnet ID is read back from its display.
use Prim.Native.String.{String}
use text.Mathlib.TextPositions.{starts_with-append}
use text.Mathlib.TextLemmas.{append-nil, cons-append, nil-append}
use rust_recall.Base.{
  ℕ, ◌<◌, ◌<>◌, List, [], ◌∷◌, none, ok, ◌≡◌, refl, false, All, arith, sym, ◌∙◌, ap,
}
use rust_recall.Base.Text.{Lacks, is_empty, starts_with, split, show, u64_mod, skip_one}
use rust_recall.Base.Text.Split.{singleton-append, split_of_Lacks, split-append}
use rust_recall.Base.Text.Decimal.{parse_u64-show, Lacks-show}
use rust_recall.Fvm.{Fvm, IsSubnetPath}
use rust_recall.Provider.Util.{parse_address}
use rust_recall.Signer.Subnet.{
  SubnetId, display, display_children, parse_children, parse_segments, parse_subnet_id,
}

module _ (F : Fvm) where
  -- The address is read back from its display, which holds no slash.
  abbrev pub IsPrintable : F.Address → Type 0
  IsPrintable a = (parse_address F (F.show_address a) ≡ ok a) × Lacks b'/' (F.show_address a)

  -- The pieces of the children's display.
  abbrev pieces : List F.Address → List String
  pieces [] = []
  pieces (a ∷ rest) = F.show_address a ∷ pieces rest

  split-display_children :
      (head : String) (c : List F.Address)
      → Lacks b'/' head
      → All IsPrintable c
      → split b'/' (head <> display_children F c) ≡ head ∷ pieces c
  unfolding display_children
  split-display_children head [] h p = rw append-nil (split_of_Lacks b'/' head h)
  split-display_children head (a ∷ rest) h p =
      rw (singleton-append "/", split-append b'/' "/" refl head _ h)
        (ap (◌∷◌ head) (split-display_children (F.show_address a) rest p.0.1 p.1))

  parse_children-pieces :
      (id : String) (c : List F.Address) → All IsPrintable c → parse_children F id (pieces c) ≡ ok c
  unfolding parse_children
  parse_children-pieces id [] p = refl
  parse_children-pieces id (a ∷ rest) p = ground (arith, parse_children-pieces id rest p.1)

  slash_r : (t : String) → "/r" <> t ≡ String.◌∷◌ "/" (String.◌∷◌ "r" t)
  slash_r t = rw (cons-append, cons-append, nil-append)

  split-display :
      (root : ℕ) (c : List F.Address)
      → All IsPrintable c
      → split b'/' ("/r" <> show root <> display_children F c)
        ≡ "" ∷ (String.◌∷◌ "r" (show root)) ∷ pieces c
  unfolding split
  split-display root c p = rw slash_r (
      ap (◌∷◌ "") (
        ap (split b'/') (sym (cons-append "r" (show root) (display_children F c)))
        ∙ split-display_children (String.◌∷◌ "r" (show root)) c
            (refl, Lacks-show b'/' root (omega arith)) p))

  parse_segments-pieces :
      (id : String) (root : ℕ) (c : List F.Address)
      → root < u64_mod
      → All IsPrintable c
      → parse_segments F id ("" ∷ (String.◌∷◌ "r" (show root)) ∷ pieces c)
        ≡ ok (record { faux = ""; real = F.new_subnet root c; explicit_chain_id = none })
  unfolding parse_segments skip_one
  parse_segments-pieces id root c h p =
      ground (arith, parse_u64-show root h, parse_children-pieces id c p)

  -- A subnet ID with no explicit chain ID is read back from its display: one that names a root
  -- below 2^64 and children whose addresses can be printed, and one whose faux name does not look
  -- like a real ID.
  pub parse_subnet_id-display :
      IsSubnetPath F
      → (root : ℕ) (c : List F.Address) (name : String) → root < u64_mod
      → All IsPrintable c
      → is_empty name ≡ false
      → starts_with name "/r" ≡ false
      → let real : SubnetId F = record {
        faux = "";
        real = F.new_subnet root c;
        explicit_chain_id = none;
      } in
        let faux : SubnetId F = record {
          faux = name;
          real = F.default_subnet;
          explicit_chain_id = none;
        } in
        (parse_subnet_id F (display F real) ≡ ok real)
        × (parse_subnet_id F (display F faux) ≡ ok faux)
  unfolding parse_subnet_id display
  parse_subnet_id-display L root c name h p e f = (
    rw (L.root_id-new, L.children-new, starts_with-append "/r" _, split-display root c p)
        (parse_segments-pieces _ root c h p),
    ground arith,
  )
