-- ===== src/RateLimiter/Examples.antt =====
-- A limiter of two requests a second at work: src/http/principal-rate-limiter.ts.
use shan_hai_edu_ppt.Base.{
  ◌≤◌, ◌≡◌, refl, false, Option, none, some, subst, [], ◌∷◌, arith, is_text,
}
use shan_hai_edu_ppt.RateLimiter.{
  create_run, run_action, Key, is_key, Window, Limiter, allowed, refused, find, delete, is_live,
  live_entries, open_window, consume_at, count_request,
}
use shan_hai_edu_ppt.RateLimiter.Limit.{granted, granted-le-limit}

abbrev teacher : Key
teacher = record { scope = create_run; tenant_id = "school"; external_user_id = "teacher" }

abbrev pupil : Key
pupil = record { scope = run_action; tenant_id = "school"; external_user_id = "pupil" }

abbrev window : Window
window = record { count = 2; started_at = 100; resets_at = 1100 }

abbrev limiter : Limiter
limiter = record {
  create_run_policy = record { limit = 2; window_ms = 1000 };
  run_action_policy = record { limit = 1; window_ms = 2000 };
  entries = (teacher, window) ∷ [];
  max_entries = 2;
  requests_since_sweep = 254;
}

abbrev window_or : Option Window → Window
window_or none = window
window_or (some w) = w

refused_at_300 : (consume_at teacher 300 limiter).1 ≡ refused 1
unfolding consume_at find is_key count_request is_text
refused_at_300 = refl

-- The window of before has run out at 1200: the request opens a new one.
ended : (w : Window) → find teacher limiter.entries ≡ some w → is_live 1200 w ≡ false
unfolding find is_key is_text
ended w h = subst (λ o. is_live 1200 (window_or o) ≡ false) h refl

opens_at_1200 : (consume_at teacher 1200 limiter).1 ≡ allowed
unfolding consume_at find is_key open_window is_text delete live_entries
opens_at_1200 = refl

granted-le-limit_example :
    granted teacher
      ((teacher, 1200) ∷ (teacher, 1300) ∷ (pupil, 1400) ∷ (teacher, 1500) ∷ [])
      limiter
    ≤ 2
unfolding find
granted-le-limit_example =
    granted-le-limit teacher 1200 ((teacher, 1300) ∷ (pupil, 1400) ∷ (teacher, 1500) ∷ []) limiter
      (refl, tt) (omega arith) ended opens_at_1200
      ((omega arith, omega arith), ((omega arith, omega arith), ((omega arith, omega arith), tt)))
