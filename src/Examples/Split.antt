-- ===== src/Examples/Split.antt =====
-- A splitter as `boost::split` is documented to be.
use push_system.Common.{ℕ, ◌≡◌, refl, List, [], ◌∷◌, ◌++◌, Bool, if◌then◌else◌, Text}
use push_system.Daemon.Registry.{colon}
use push_system.Daemon.Registry.Address.{join, NoColon, SplitsAtColon}

abbrev cons_head : ℕ → List Text → List Text
cons_head c [] = (c ∷ []) ∷ []
cons_head c (t ∷ rest) = (c ∷ t) ∷ rest

abbrev pub split_at : (ℕ → Bool) → Text → List Text
split_at is_sep [] = [] ∷ []
split_at is_sep (c ∷ s) =
    if is_sep c then [] ∷ split_at is_sep s else cons_head c (split_at is_sep s)

split_piece :
    (a : Text) (s : Text) (rest : List Text)
    → NoColon a
    → split_at colon s ≡ rest
    → split_at colon (a ++ b':' ∷ s) ≡ a ∷ rest
split_piece [] s rest n e = rw e
split_piece (c ∷ a) s rest n e = rw (n.0, split_piece a s rest n.1 e)

split_last : (a : Text) → NoColon a → split_at colon a ≡ a ∷ []
split_last [] n = refl
split_last (c ∷ a) n = rw (n.0, split_last a n.1)

pub split_at-SplitsAtColon : SplitsAtColon split_at
split_at-SplitsAtColon a [] n = split_last a n.0
split_at-SplitsAtColon a (b ∷ rest) n =
    split_piece a (join (b ∷ rest)) (b ∷ rest) n.0 (split_at-SplitsAtColon b rest n.1)
