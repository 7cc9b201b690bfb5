-- ===== src/Sampler/Slots.antt =====
-- The slots of internal/controllers/history_sampler.go, and nextInterval of controller.go.
use hpa_plus.Prelude.{
  ℤ, pos, negsuc, ltb_ℤ, leb_ℤ, ◌+ℤ◌, ◌-ℤ◌, suc, zero, ◌+◌, ◌*◌, ◌/◌, sub_ℕ, ◌||◌, ◌||◌,
  if◌then◌else◌,
}

abbrev pub second : ℤ
second = pos 1000000000

-- Time.Truncate: down to a multiple of the duration since the zero time.
unfoldable pub truncate : ℤ → ℤ → ℤ
truncate t (pos zero) = t
truncate t (negsuc d) = t
truncate (pos n) (pos (suc d)) = pos (n / suc d * suc d)
truncate (negsuc n) (pos (suc d)) = sub_ℕ 0 ((suc n + d) / suc d * suc d)

unfoldable pub sampling_slot : ℤ → ℤ → ℤ
sampling_slot now period = truncate (truncate now period) second

-- The first multiple of the period from `earliest` on.
unfoldable pub align_up : ℤ → ℤ → ℤ
align_up earliest period =
    let next = truncate earliest period in if ltb_ℤ next earliest then next +ℤ period else next

-- The time that the delay leads to.
unfoldable pub next_sampling : ℤ → ℤ → ℤ
next_sampling now period =
    let next = truncate now period +ℤ period in
    let earliest = sampling_slot now period +ℤ second in
    if ltb_ℤ next earliest then align_up earliest period else next

unfoldable pub next_sampling_delay : ℤ → ℤ → ℤ
next_sampling_delay now period = next_sampling now period -ℤ now

-- Time.Round: to the nearest multiple of the duration, and up at a half.
unfoldable pub round_time : ℤ → ℤ → ℤ
round_time t d =
    let down = truncate t d in
    let rest = t -ℤ down in if ltb_ℤ (rest +ℤ rest) d || leb_ℤ d (pos 0) then down else down +ℤ d

unfoldable pub next_interval : ℤ → ℤ → ℤ
next_interval t d = if ltb_ℤ (round_time t d) t then round_time t d +ℤ d else round_time t d
