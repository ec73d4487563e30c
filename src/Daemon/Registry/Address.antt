-- ===== src/Daemon/Registry/Address.antt =====
-- `parseAndGetIp` on the peers that gRPC reports.
use push_system.Common.{ℕ, ◌≡◌, refl, List, [], ◌∷◌, ◌++◌, Bool, false, ap, ◌∙◌, All, Text}
use push_system.Daemon.Registry.{parse_and_get_ip, colon, second_of_three}

-- The pieces with a colon between each two.
abbrev pub join : List Text → Text
join [] = []
join (a ∷ []) = a
join (a ∷ b ∷ rest) = a ++ b':' ∷ join (b ∷ rest)

abbrev pub NoColon : Text → Type 0
NoColon = All (λ c. colon c ≡ false)

-- `boost::split` at a character gives back the pieces between its occurrences, empty ones too.
abbrev pub SplitsAtColon : ((ℕ → Bool) → Text → List Text) → Type 0
SplitsAtColon split =
    (a : Text) (rest : List Text)
    → All NoColon (a ∷ rest)
    → split colon (join (a ∷ rest)) ≡ a ∷ rest

-- If the split gives back the pieces between the colons, as boost::split does, then of a peer of
-- three pieces, as ipv4:1.2.3.4:5000, the middle one is the address, and of a peer with any other
-- number of pieces, as ipv6:[::1]:5000 has, the address is empty.
pub parse_and_get_ip_lem :
    (split : (ℕ → Bool) → Text → List Text)
    → SplitsAtColon split
    → (a b c d : Text) (rest : List Text) → All NoColon (a ∷ b ∷ c ∷ d ∷ rest)
    → (parse_and_get_ip split (join (a ∷ b ∷ c ∷ [])) ≡ b)
      × (parse_and_get_ip split (join (a ∷ b ∷ [])) ≡ [])
      × (parse_and_get_ip split (join (a ∷ [])) ≡ [])
      × (parse_and_get_ip split (join (a ∷ b ∷ c ∷ d ∷ rest)) ≡ [])
unfolding parse_and_get_ip
parse_and_get_ip_lem split law a b c d rest n = (
  of_pieces b (b ∷ c ∷ []) (n.0, (n.1.0, (n.1.1.0, tt))) (middle b),
  of_pieces [] (b ∷ []) (n.0, (n.1.0, tt)) (short b),
  of_pieces [] [] (n.0, tt) refl,
  of_pieces [] (b ∷ c ∷ d ∷ rest) n (longer b),
)
  where
    of_pieces :
        (r : Text) (pieces : List Text)
        → All NoColon (a ∷ pieces)
        → second_of_three (a ∷ pieces) ≡ r
        → parse_and_get_ip split (join (a ∷ pieces)) ≡ r
    of_pieces r pieces m e = ap second_of_three (law a pieces m) ∙ e

    short : (b : Text) → second_of_three (a ∷ b ∷ []) ≡ []
    short [] = refl
    short (x ∷ b) = refl

    middle : (b : Text) → second_of_three (a ∷ b ∷ c ∷ []) ≡ b
    middle [] = refl
    middle (x ∷ b) = refl

    longer : (b : Text) → second_of_three (a ∷ b ∷ c ∷ d ∷ rest) ≡ []
    longer [] = refl
    longer (x ∷ b) = refl
