-- ===== src/Updater/Main/Step.antt =====
-- What an update may change at the three release keys.
use push_system.Common.{ℕ, ◌≡◌, sym, ◌∙◌, List, Bool, true, false, ◌⊎◌, inl, inr, Text, codes}
use mathlib.Core.Path.{subst}
use push_system.Shared.{gen_release_key}
use push_system.Updater.Written.{pages_end, HasBits}

abbrev pub fans : Text
fans = codes "OFFICIAL_FANS_"

abbrev pub active : Text
active = codes "MONTH_ACTIVE_USER_"

abbrev pub opened : Text
opened = codes "PUSH_SWITCH_OPENED_"

-- A release key is as it was, or has the whole of its table.
abbrev pub KeyStep :
    {R : Type 0}
    → (R → Text → List ℕ)
    → (member : ℕ → Bool) → (key : Text) → (before after : R) → Type 0
KeyStep value member key before after =
    (value after (gen_release_key key) ≡ value before (gen_release_key key))
    ⊎ HasBits member pages_end (value after (gen_release_key key))

abbrev pub KeySteps :
    {R : Type 0}
    → (R → Text → List ℕ)
    → (member : Text → Bool → ℕ → Bool) → (before after : R) → Type 0
KeySteps value member before after =
    KeyStep value (member (codes "official_fans") false) fans before after
    × KeyStep value (member (codes "month_active_users") false) active before after
    × KeyStep value (member (codes "push_switch") true) opened before after

KeyStep-trans :
    {R : Type 0} (value : R → Text → List ℕ) (member : ℕ → Bool) (key : Text) (r s t : R)
    → KeyStep value member key r s
    → KeyStep value member key s t
    → KeyStep value member key r t
KeyStep-trans value member key r s t first (inr whole) = inr whole
KeyStep-trans value member key r s t (inl a) (inl b) = inl (b ∙ a)
KeyStep-trans value member key r s t (inr whole) (inl b) =
    inr (subst (HasBits member pages_end) (sym b) whole)

pub KeySteps-trans :
    {R : Type 0} (value : R → Text → List ℕ) (member : Text → Bool → ℕ → Bool) (r s t : R)
    → KeySteps value member r s
    → KeySteps value member s t
    → KeySteps value member r t
KeySteps-trans value member r s t a b = (
  KeyStep-trans value _ fans r s t a.0 b.0,
  KeyStep-trans value _ active r s t a.1 b.1,
  KeyStep-trans value _ opened r s t a.2 b.2,
)
