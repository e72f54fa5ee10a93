-- ===== src/Cli/Options/Addresses.antt =====
-- Lists of addresses on the command line, and the address that a command is about.
use rust_recall.Base.{
  String, ◌<>◌, List, [], ◌∷◌, map, ok, err, All, All-append, ◌++◌, ◌≡◌, refl, sym, ap, ◌∙◌,
}
use rust_recall.Base.HashSet.{hash_set, SameMembers, insert-hash_set, hash_set-SameMembers}
use rust_recall.Base.Text.{Lacks, split}
use rust_recall.Base.Text.Split.{split-append, split_of_Lacks, singleton-append}
use rust_recall.Fvm.{Fvm}
use rust_recall.Provider.Util.{parse_address}
use rust_recall.Cli.Options.{collect_addresses, parse_address_list}

-- A text and the texts after it, with a comma between each two
abbrev pub join : String → List String → String
join first [] = first
join first (s ∷ rest) = first <> "," <> join s rest

split-join :
    (first : String) (rest : List String)
    → Lacks b',' first
    → All (Lacks b',') rest
    → split b',' (join first rest) ≡ first ∷ rest
split-join first [] h hs = split_of_Lacks b',' first h
split-join first (s ∷ rest) h hs = rw singleton-append (
    split-append b',' "," refl first (join s rest) h ∙ ap (◌∷◌ first) (split-join s rest hs.0 hs.1))

module _ (F : Fvm) where
  abbrev pub Reads : String × F.Address → Type 0
  Reads entry = (Lacks b',' entry.0) × (parse_address F entry.0 ≡ ok entry.1)

  All-Lacks :
      (entries : List (String × F.Address))
      → All Reads entries
      → All (Lacks b',') (map (λ x. x.0) entries)
  All-Lacks [] h = tt
  All-Lacks (x ∷ rest) h = (h.0.0, All-Lacks rest h.1)

  collect_addresses-Reads :
      (entries : List (String × F.Address))
      → All Reads entries
      → collect_addresses F (map (λ x. x.0) entries) ≡ ok (hash_set (map (λ x. x.1) entries))
  unfolding collect_addresses
  collect_addresses-Reads [] h = refl
  collect_addresses-Reads (x ∷ rest) h =
      rw (h.0.1, collect_addresses-Reads rest h.1)
        (ap ok (insert-hash_set x.1 (map (λ y. y.1) rest)))

  abbrev pub texts : List (String × F.Address) → List String
  texts entries = map (λ x. x.0) entries

  abbrev pub addresses : List (String × F.Address) → List F.Address
  addresses entries = map (λ x. x.1) entries

  parse_address_list-join :
      (first : String × F.Address) (rest : List (String × F.Address))
      → Reads first
      → All Reads rest
      → parse_address_list F (join first.0 (texts rest)) ≡ ok (hash_set (first.1 ∷ addresses rest))
  unfolding parse_address_list
  parse_address_list-join first rest h hs =
      rw (split-join first.0 (texts rest) h.0 (All-Lacks rest hs))
        (collect_addresses-Reads (first ∷ rest) (h, hs))

  -- Addresses that are joined by commas are read as the set of them, if each is read by itself and
  -- holds no comma: a second such list with the same addresses gives the same result, in whatever
  -- order it has them, and however often.
  pub parse_address_list-SameMembers :
      (first : String × F.Address) (rest : List (String × F.Address)) (other : String × F.Address)
      (others : List (String × F.Address))
      → Reads first
      → All Reads rest
      → Reads other
      → All Reads others
      → SameMembers (first.1 ∷ addresses rest) (other.1 ∷ addresses others)
      → (parse_address_list F (join first.0 (texts rest))
          ≡ ok (hash_set (first.1 ∷ addresses rest)))
        × (parse_address_list F (join other.0 (texts others))
            ≡ parse_address_list F (join first.0 (texts rest)))
  parse_address_list-SameMembers first rest other others h hs k ks same =
      let read = parse_address_list-join first rest h hs in
      let read_other = parse_address_list-join other others k ks in
      let sets =
        hash_set-SameMembers (first.1 ∷ addresses rest) (other.1 ∷ addresses others) same in
      (read, read_other ∙ ap ok (sym sets) ∙ sym read)

  collect_addresses_bad :
      (good : List (String × F.Address)) (bad : String) (rest : List String) (e : String)
      → All Reads good
      → parse_address F bad ≡ err e
      → collect_addresses F (map (λ x. x.0) good ++ bad ∷ rest)
        ≡ err ("error parsing address: " <> e)
  unfolding collect_addresses
  collect_addresses_bad [] bad rest e h k = rw k refl
  collect_addresses_bad (x ∷ good) bad rest e h k =
      rw (h.0.1, collect_addresses_bad good bad rest e h.1 k) refl

  -- An address that is not read, after one or more that are, makes the whole list an error that
  -- shows its own, whatever comes after it. No text of the list holds a comma.
  pub parse_address_list_bad :
      (first : String × F.Address) (good : List (String × F.Address)) (bad : String)
      (rest : List String) (e : String)
      → Reads first
      → All Reads good
      → Lacks b',' bad
      → All (Lacks b',') rest
      → parse_address F bad ≡ err e
      → parse_address_list F (join first.0 (map (λ x. x.0) good ++ bad ∷ rest))
        ≡ err ("error parsing address: " <> e)
  unfolding parse_address_list
  parse_address_list_bad first good bad rest e h hs b r k =
      rw
        (split-join first.0 (map (λ x. x.0) good ++ bad ∷ rest) h.0
          (All-append (Lacks b',') (map (λ x. x.0) good) (bad ∷ rest) (All-Lacks good hs) (b, r)))
        (collect_addresses_bad (first ∷ good) bad rest e (h, hs) k)
