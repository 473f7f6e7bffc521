-- ===== src/ApiKeys/Reset.antt =====
-- `_advance_reset` of app/modules/api_keys/service.py: a reset in the past moves on by whole windows.
use codex_octopus.Base.{
  ℕ, zero, suc, ◌+◌, ◌-◌, ◌*◌, ◌≤◌, ◌<◌, leb, ◌≡◌, refl, ◌∙◌, ◌⊎◌, inl, inr, true, false, arith,
  Bool-cases,
}
use codex_octopus.ApiKeys.Limits.{
  LimitWindow, daily, weekly, monthly, five_hours, seven_days, window_delta,
}

-- `while next_reset <= now: next_reset += delta`
unfoldable pub advance_loop : ℕ → ℕ → ℕ → ℕ → ℕ
advance_loop zero delta now next_reset = next_reset
advance_loop (suc fuel) delta now next_reset = elim (leb next_reset now) [
  | true ↦ advance_loop fuel delta now (next_reset + delta)
  | false ↦ next_reset
]

-- Every round adds at least one, so this fuel is enough.
unfoldable pub advance_reset : ℕ → ℕ → LimitWindow → ℕ
unfolding advance_loop
advance_reset reset_at now window =
    advance_loop (suc (now + 1 - reset_at)) (window_delta window) now reset_at

pub window_delta_pos : (window : LimitWindow) → 0 < window_delta window
unfolding window_delta
window_delta_pos daily = omega arith
window_delta_pos weekly = omega arith
window_delta_pos monthly = omega arith
window_delta_pos five_hours = omega arith
window_delta_pos seven_days = omega arith

-- The loop ends past `now`, after some whole rounds, and not later than it must.
abbrev pub Advanced : ℕ → ℕ → ℕ → ℕ → Type 0
Advanced delta now from to =
    (now < to)
    × (from ≤ to)
    × ((to ≡ from) ⊎ (to ≤ now + delta))
    × ((rounds : ℕ) × (to ≡ from + rounds * delta))

round_more : (from delta rounds : ℕ) → from + delta + rounds * delta ≡ from + (rounds + 1) * delta
round_more from delta rounds = grind arith

advance_loop-Advanced :
    (fuel delta now from : ℕ)
    → 0 < delta
    → now + 1 < from + fuel
    → Advanced delta now from (advance_loop fuel delta now from)
unfolding advance_loop
advance_loop-Advanced zero delta now from p f =
    (omega arith, omega arith, inl refl, (0, omega arith))
advance_loop-Advanced (suc fuel) delta now from p f = elim (Bool-cases (leb from now)) [
  | inl past ↦
      let (over, grown, late, (rounds, whole)) =
        advance_loop-Advanced fuel delta now (from + delta) p (omega arith) in
      rw (past, advance_loop)
        (over, omega arith, inr (ground arith), (rounds + 1, whole ∙ round_more from delta rounds))
  | inr ahead ↦ rw (ahead, advance_loop) (ground arith, omega arith, inl refl, (0, omega arith))
]

-- A reset is moved past `now` by a whole number of windows, and by the least number that does it: it
-- stays where it is, or ends at most one window after `now`.
pub advance_reset-Advanced :
    (reset_at now : ℕ) (window : LimitWindow)
    → Advanced (window_delta window) now reset_at (advance_reset reset_at now window)
unfolding advance_reset
advance_reset-Advanced reset_at now window =
    advance_loop-Advanced (suc (now + 1 - reset_at)) (window_delta window) now reset_at
      (window_delta_pos window) (omega arith)
