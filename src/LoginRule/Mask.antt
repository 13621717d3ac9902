-- ===== src/LoginRule/Mask.antt =====
-- The time mask: one bit for each hour of the week.
use one_auth.Base.{◌<◌, ◌≡◌, arith}
use one_auth.LoginRule.{Instant, slot}

-- For a weekday below 7 and an hour below 24 the bit is one of 168, and two instants have the same
-- bit only if they agree in weekday and hour.
pub slot_injective :
    (s t : Instant)
    → s.weekday < 7
    → s.hour < 24
    → t.weekday < 7
    → t.hour < 24
    → (slot s < 168) × (slot s ≡ slot t → (s.weekday ≡ t.weekday) × (s.hour ≡ t.hour))
unfolding slot
slot_injective s t a b c d = (ground arith, λ e. (ground arith, ground arith))
