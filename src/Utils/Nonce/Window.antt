-- ===== src/Utils/Nonce/Window.antt =====
-- Distances between truncated slots (src/utils/nonce.rs).
use external_signature_progr.Base.{ℕ, ◌+◌, ◌-◌, ◌%◌, ◌≤◌, ◌<◌, ◌≡◌, arith}
use external_signature_progr.Errors.{ok, ◌>>=◌}
use external_signature_progr.Utils.Nonce.{new, get_index_difference}

-- On two truncated slots below 1000 the difference never fails, and it is the distance from
-- `other` forward to `self` on the circle of 1000 slots.
pub get_index_difference_circle :
    (self other : ℕ)
    → self < 1000
    → other < 1000
    → get_index_difference self other ≡ ok ((self + 1000 - other) % 1000)
unfolding get_index_difference
get_index_difference_circle self other h k = ground arith

-- Truncation loses nothing within 1000 slots: the difference of the truncations of an old and a
-- recent slot height less than 1000 apart is the difference of the heights.
pub get_index_difference-new :
    (recent old : ℕ)
    → old ≤ recent
    → recent - old < 1000
    → (do a ← new recent; b ← new old; get_index_difference a b) ≡ ok (recent - old)
unfolding new get_index_difference
get_index_difference-new recent old h k = ground arith
