-- ===== src/Audiodev/Latency.antt =====
-- src/audiodev.c, `audiodev_playback_latency`. The integers have no bound here.
use spicy_kvm.Prelude.{
  ℕ, zero, suc, ◌+◌, ◌*◌, ◌/◌, ◌≡◌, refl, false, ◌==◌, if◌then◌else◌, ℤ, pos, negsuc, neg_part,
  ◌+ℤ◌, ◌-ℤ◌, is_negative, arith,
}

-- `pw.playback.time`
pub record Time : Type 0 where
  pub now : ℤ
  pub rate_num : ℕ
  pub rate_denom : ℕ
  pub delay : ℤ
  pub queued : ℕ
  pub buffered : ℕ

abbrev minus : ℕ → ℤ
minus zero = pos 0
minus (suc n) = negsuc n

-- A product, and a quotient that is rounded towards 0, with a number that is not negative.
abbrev times : ℤ → ℕ → ℤ
times (pos a) k = pos (a * k)
times (negsuc a) k = minus ((a + 1) * k)

abbrev over : ℤ → ℕ → ℤ
over (pos a) k = pos (a / k)
over (negsuc a) k = minus ((a + 1) / k)

-- The frames since `time.now`, at the time `ts` in nanoseconds.
unfoldable pub elapsed_frames : ℤ → Time → ℤ
elapsed_frames ts t = over (times (ts -ℤ t.now) t.rate_denom) (t.rate_num * 1000000000)

-- The variable `latency`, in milliseconds.
unfoldable pub latency_ms : ℤ → ℕ → Time → ℤ
latency_ms ts sample_rate t =
    pos ((t.buffered + t.queued) * 1000 / sample_rate)
    +ℤ over (times (times (t.delay -ℤ elapsed_frames ts t) 1000) t.rate_num) t.rate_denom

-- `max(0, -latency)`
unfoldable pub audiodev_playback_latency : ℤ → ℕ → Time → ℕ
audiodev_playback_latency ts sample_rate t =
    if t.rate_num == 0 then 0 else neg_part (latency_ms ts sample_rate t)

times_sign : (a : ℤ) (k : ℕ) → is_negative a ≡ false → is_negative (times a k) ≡ false
times_sign (pos a) k h = refl
times_sign (negsuc a) k h = cc

over_sign : (a : ℤ) (k : ℕ) → is_negative a ≡ false → is_negative (over a k) ≡ false
over_sign (pos a) k h = refl
over_sign (negsuc a) k h = cc

sum_sign : (n : ℕ) (a : ℤ) → is_negative a ≡ false → neg_part (pos n +ℤ a) ≡ 0
unfolding ◌+ℤ◌
sum_sign n (pos a) h = ground arith
sum_sign n (negsuc a) h = cc

-- While the delay of the device has not passed, the latency that is returned is 0, whatever is queued
-- and buffered.
pub audiodev_playback_latency-zero :
    (ts : ℤ) (sample_rate : ℕ) (t : Time)
    → is_negative (t.delay -ℤ elapsed_frames ts t) ≡ false
    → audiodev_playback_latency ts sample_rate t ≡ 0
unfolding audiodev_playback_latency latency_ms
audiodev_playback_latency-zero ts sample_rate t h =
    let rest = t.delay -ℤ elapsed_frames ts t in
    let scaled = times_sign (times rest 1000) t.rate_num (times_sign rest 1000 h) in
    ground (
      arith,
      sum_sign ((t.buffered + t.queued) * 1000 / sample_rate)
          (over (times (times rest 1000) t.rate_num) t.rate_denom)
          (over_sign (times (times rest 1000) t.rate_num) t.rate_denom scaled),
    )
