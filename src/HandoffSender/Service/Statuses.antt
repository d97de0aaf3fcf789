-- ===== src/HandoffSender/Service/Statuses.antt =====
-- The local status of a snapshot in server/internal/handoffsender/service.go, as far as the calls
-- tell it apart.
use leads_engine.Base.{Bool, true, false, ◌≡◌, ◌⊎◌, inl, inr, refl}
use leads_engine.HandoffSender.{Status, confirmed, delivered, delivery_failed, revoked}

abbrev pub is_live : Status → Bool
is_live revoked = false
is_live _ = true

pub Status-cases :
    (s : Status)
    → (s ≡ revoked)
      ⊎ (s ≡ delivered)
      ⊎ ((is_live s ≡ true) × ((s ≡ confirmed) ⊎ (s ≡ delivery_failed)))
Status-cases confirmed = inr (inr (refl, inl refl))
Status-cases delivered = inr (inl refl)
Status-cases delivery_failed = inr (inr (refl, inr refl))
Status-cases revoked = inl refl
