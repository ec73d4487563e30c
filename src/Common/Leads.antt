-- ===== src/Common/Leads.antt =====
-- Runs of a step relation.
-- The steps that lead to `last`.
pub data LeadsTo {W : Type 0} (R : W → W → Type 0) (last : W) : W → Type 0 where
  stop : LeadsTo R last last
  more : {v w : W} → R w v → LeadsTo R last v → LeadsTo R last w
