-- ===== src/Receiver/Window.antt =====
-- The replay window.
use skattr.Base.{ℕ, ◌+◌, ◌<◌, ◌≡◌, ◌↔◌, ◌⊎◌, true, arith}
use skattr.Base.Int.{ℤ, pos, negsuc, pos_part, neg_part}
use skattr.Receiver.{outside_window, replay_window_ms}

-- Saturation does not matter: a timestamp lies outside the window exactly when it is more than an
-- hour before or after the local clock, whatever the peer claims.
pub outside_window_iff :
    (ts : ℤ) (now_ms : ℕ)
    → (outside_window ts now_ms ≡ true) ↔ (
        (now_ms + replay_window_ms + neg_part ts < pos_part ts)
        ⊎ (pos_part ts + replay_window_ms < now_ms + neg_part ts))
unfolding outside_window
outside_window_iff (pos n) now_ms = (λ e. ground (arith, e), λ h. ground (arith, h))
outside_window_iff (negsuc n) now_ms = (λ e. ground (arith, e), λ h. ground (arith, h))
