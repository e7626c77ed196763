-- ===== src/Tests/Streams.antt =====
-- Theorems on the events that the console receives, and on what it formats.
use price_scout.Base.{ℕ, ◌≡◌, refl, none, some, [], ◌∷◌, ◌≤◌, ◌+◌, ◌*◌, ◌/◌, arith}
use price_scout.Base.Text.{codes, show_from, show}
use price_scout.Web.Types.{SystemEvent}
use price_scout.Web.Events.{
  Provider, unmount, on_timer, on_error, on_message, on_open, mounted, Run, mount, opens, receives,
  fails, fires, leaves,
}
use price_scout.Web.Events.Laws.{IsTidy, Shows, Run-IsTidy, Run-Shows}
use price_scout.Web.Format.{Locale, format_duration}
use price_scout.Web.Format.Laws.{Says, format_duration-Says}

abbrev told : SystemEvent
told = record {
  id = codes "1";
  type = codes "execution.finished";
  occurred_at = codes "1";
  monitor_id = some (codes "m");
  execution_id = none;
  message = none;
  details = none;
}

-- The stream opens, brings an event, breaks and is opened again, and the console leaves.
abbrev after_visit : Provider
after_visit = unmount (on_timer 1 (on_error (on_message told (on_open mounted))))

visit : Run (told ∷ []) after_visit
visit = leaves (fires (fails (receives (opens mount 0 refl) 0 refl told) 0 refl) 1 refl) refl

Run-IsTidy_example : IsTidy after_visit
Run-IsTidy_example = Run-IsTidy visit

Run-Shows_example : Shows (told ∷ []) after_visit
Run-Shows_example = Run-Shows visit

abbrev nearest : ℕ → ℕ
nearest ms = (ms + 50) / 100

nearest_near : (ms : ℕ) → (100 * nearest ms ≤ ms + 50) × (ms ≤ 100 * nearest ms + 50)
nearest_near ms = omega arith

abbrev locale : Locale
locale = record {
  money = λ currency n. none;
  date = λ t. [];
  tenths = nearest;
  tenths_near = nearest_near;
}

nearly_two_minutes : format_duration locale (some 119999) ≡ codes "1m 60s"
unfolding format_duration show show_from
nearly_two_minutes = refl

format_duration-Says_example : Says 119999 (format_duration locale (some 119999))
format_duration-Says_example = format_duration-Says locale 119999
