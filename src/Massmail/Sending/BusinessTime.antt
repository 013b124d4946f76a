-- ===== src/Massmail/Sending/BusinessTime.antt =====
-- massmail/utils/sendmassmail.py, `get_seconds_to_business_time`, and massmail/settings.py.
-- A moment is a weekday, 0 for Monday as in Python, and a time of the day; the unit of time is the
-- microsecond, and a moment of the week is counted from Monday 00:00. The local clock is taken
-- without daylight-saving changes. `replace(hour=…, minute=…)` keeps the seconds of the moment.
use django_crm_marscode.Prelude.{
  ℕ, ◌+◌, ◌-◌, ◌*◌, ◌/◌, ◌<◌, ◌≡◌, refl, ◌||◌, arith, ltb, ◌==◌, if◌then◌else◌,
}

abbrev pub minute : ℕ
minute = 60_000_000

abbrev pub day : ℕ
day = 1440 * minute

pub record Moment : Type 0 where
  pub weekday : ℕ
  pub minutes : ℕ
  pub rest : ℕ

pub record IsMoment (t : Moment) : Type 0 where
  pub in_week : t.weekday < 7
  pub in_day : t.minutes < 1440
  pub in_minute : t.rest < minute

-- From Monday 00:00 of the week of the moment.
abbrev pub since_monday : Moment → ℕ
since_monday t = t.weekday * day + t.minutes * minute + t.rest

-- `now.replace(hour=…, minute=…)`
abbrev pub at_minutes : ℕ → Moment → Moment
at_minutes m t = record t { minutes = m }

-- BUSINESS_TIME_START and BUSINESS_TIME_END: 8:30 and 17:30
abbrev pub business_start : ℕ
business_start = 8 * 60 + 30

abbrev pub business_end : ℕ
business_end = 17 * 60 + 30

-- `weekday in (4, 5, 6)`, and `days = 7 - weekday`
abbrev pub delta : ℕ → ℕ
delta weekday = if weekday == 4 || (weekday == 5 || weekday == 6) then (7 - weekday) * day else 0

abbrev wait_between : ℕ → ℕ → ℕ → ℕ
wait_between start end now =
    if ltb now start then start - now else if ltb end now then day + start - now else 0

-- In microseconds.
unfoldable pub get_seconds_to_business_time : Moment → ℕ
get_seconds_to_business_time t =
    wait_between (since_monday (at_minutes business_start t) + delta t.weekday)
      (since_monday (at_minutes business_end t) + delta t.weekday) (since_monday t)

-- The moment of the week at which the wait ends, and its weekday and time of the day.
abbrev pub wake : Moment → ℕ
wake t = since_monday t + get_seconds_to_business_time t

friday_ten :
    get_seconds_to_business_time (record { weekday = 4; minutes = 600; rest = 0 })
    ≡ 3 * day - 90 * minute
unfolding get_seconds_to_business_time
friday_ten = refl

-- 8:30 of the day with this number, counted from the Monday of the week, and the seconds of the moment.
abbrev opening : ℕ → Moment → ℕ
opening d t = d * day + business_start * minute + t.rest

-- When the wait of the code ends: from Friday to Sunday at 8:30 of the next Monday; on the other days
-- at 8:30 of the same day before that, at once between 8:30 and 17:30, and later at 8:30 of the next
-- day, with the seconds that the clock shows at the start; on a Thursday evening that is the Friday.
wake_lem :
    (t : Moment)
    → IsMoment t
    → wake t ≡ (
        if ltb 3 t.weekday
        then opening 7 t
        else if ltb t.minutes business_start
        then opening t.weekday t
        else if ltb business_end t.minutes
        then opening (t.weekday + 1) t
        else since_monday t)
unfolding get_seconds_to_business_time
wake_lem t m = ground arith

-- The sender says that it does not work on Friday, Saturday and Sunday, but a wait that starts on a
-- Thursday after 17:30 ends on the Friday, the day with number 4.
wake_on_friday :
    (t : Moment) → IsMoment t → t.weekday ≡ 3 → business_end < t.minutes → wake t / day ≡ 4
wake_on_friday t m thursday late = ground (arith, wake_lem t m)
