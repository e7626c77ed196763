-- ===== src/Web/Format/Laws.antt =====
-- What a formatted duration says.
use price_scout.Base.{
  ℕ, ◌+◌, ◌*◌, ◌/◌, ◌%◌, ◌≤◌, ◌<◌, ◌≡◌, refl, ◌↔◌, inl, inr, some, ◌∷◌, ◌++◌, arith,
}
use price_scout.Base.{ltb, Bool-cases}
use price_scout.Base.Text.{Text, codes, show}
use price_scout.Web.Format.{Locale, format_duration}

-- The milliseconds below a second; tenths of a second that are off by at most a twentieth; or
-- minutes and seconds that are off by at most half a second.
pub data Says (ms : ℕ) (text : Text) : Type 0 where
  exactly : ms < 1000 → text ≡ show ms ++ codes "ms" → Says ms text
  tenths :
      (t : ℕ)
      → 1000 ≤ ms
      → ms < 60000
      → 100 * t ≤ ms + 50
      → ms ≤ 100 * t + 50
      → text ≡ show (t / 10) ++ b'.' ∷ (48 + t % 10) ∷ codes "s"
      → Says ms text
  minutes :
      (m s : ℕ)
      → 60000 ≤ ms
      → 60000 * m + 1000 * s ≤ ms + 500
      → ms < 60000 * m + 1000 * s + 500
      → s ≤ 60
      → (s ≡ 60) ↔ (59500 ≤ ms % 60000)
      → text ≡ show m ++ (codes "m " ++ (show s ++ codes "s"))
      → Says ms text

-- A duration is shown to the millisecond below a second, to the nearest tenth of a second below a
-- minute, and to the nearest second from there on. The seconds beside the minutes are at most sixty,
-- and are sixty exactly if the time over the full minutes is within half a second of the next one.
pub format_duration-Says : (l : Locale) (ms : ℕ) → Says ms (format_duration l (some ms))
unfolding format_duration
format_duration-Says l ms = elim (Bool-cases (ltb ms 1000)) [
  | inl short ↦ exactly (ground arith) (rw short refl)
  | inr long ↦ elim (Bool-cases (ltb ms 60000)) [
    | inl brief ↦
        let (low, high) = l.tenths_near ms in
        tenths (l.tenths ms) (ground arith) (ground arith) low high (rw (long, brief) refl)
    | inr lasting ↦
        let enough : 60000 ≤ ms = ground arith in
        minutes (ms / 60000) ((ms % 60000 + 500) / 1000) enough (omega arith) (omega arith)
          (omega arith) (λ e. omega arith, λ h. omega arith) (rw (long, lasting) refl)
  ]
]
