-- ===== src/Values/Plain.antt =====
-- A plain calendar of twelve months of 31 days, for runs: it keeps what the code relies on in the date
-- library.
use mysql_asio.Base.{
  ℕ, ◌+◌, ◌-◌, ◌*◌, ◌/◌, ◌%◌, ◌≤◌, ◌≡◌, refl, ap, Bool, true, false, ◌||◌, ltb, arith,
}
use mysql_asio.Base.Int.{ℤ, pos, negsuc}
use mysql_asio.Values.{
  Calendar, YearMonthDay, TimeOfDay, is_out_of_range, per_second, per_minute, per_hour, per_day,
}
use mysql_asio.Values.Binary.Dates.{IsLawful}

-- Only the days from the year 0 on have dates; the others are out of range.
abbrev date_of : ℤ → YearMonthDay
date_of (pos d) = record { year = pos (d / 372); month = d % 372 / 31 + 1; day = d % 31 + 1 }
date_of (negsuc d) = record { year = negsuc d; month = 1; day = 1 }

abbrev day_of : YearMonthDay → ℤ
day_of ymd = elim ymd.year [
  | pos y ↦ pos (y * 372 + (ymd.month - 1) * 31 + (ymd.day - 1))
  | negsuc y ↦ negsuc y
]

abbrev time_of : ℕ → TimeOfDay
time_of n = record {
  hours = n % per_day / per_hour;
  minutes = n % per_hour / per_minute;
  seconds = n % per_minute / per_second;
  subseconds = n % per_second;
}

abbrev earlier : ℤ → ℤ → Bool
earlier (pos a) (pos b) = ltb a b
earlier (pos a) (negsuc b) = false
earlier (negsuc a) (pos b) = true
earlier (negsuc a) (negsuc b) = ltb b a

abbrev floor_of : ℤ → ℤ
floor_of (pos t) = pos (t / per_day)
floor_of (negsuc t) = negsuc (t / per_day)

abbrev tod_of : ℤ → TimeOfDay
tod_of (pos t) = time_of t
tod_of (negsuc t) = time_of 0

abbrev add_of : ℤ → ℕ → ℤ
add_of (pos d) us = pos (d * per_day + us)
add_of (negsuc d) us = negsuc d

abbrev pub plain : Calendar
plain = record {
  ymd_of = date_of;
  days_of = day_of;
  is_ok = λ ymd. true;
  floor_days = floor_of;
  time_of_day = tod_of;
  add_micros = add_of;
  before = earlier;
}

or-false : (a b : Bool) → (a || b) ≡ false → (a ≡ false) × (b ≡ false)
or-false true b h = cc
or-false false b h = (refl, h)

year_le : (d : ℕ) → is_out_of_range plain (pos d) ≡ false → d / 372 ≤ 9999
unfolding is_out_of_range
year_le d h = ground arith

no_negative : (d : ℕ) → is_out_of_range plain (negsuc d) ≡ false → ⊥
unfolding is_out_of_range
no_negative d h = cc

back_of : (d : ℤ) → is_out_of_range plain d ≡ false → day_of (date_of d) ≡ d
back_of (pos d) h = ap pos (omega arith)
back_of (negsuc d) h = refl

pub plain-IsLawful : IsLawful plain
plain-IsLawful = record {
  back = back_of;
  valid = λ d h. refl;
  year_fits = years;
  month_fits = months;
  day_fits = days;
  hours_fit = hours;
  minutes_fit = minutes;
  seconds_fit = seconds;
  subseconds_fit = subseconds;
  whole = wholes;
}
  where
    years :
        (d : ℤ)
        → is_out_of_range plain d ≡ false
        → (y : ℕ) × ((date_of d).year ≡ pos y) × (y ≤ 9999)
    years (pos d) h = (d / 372, refl, year_le d h)
    years (negsuc d) h = absurd (no_negative d h)

    months : (d : ℤ) → is_out_of_range plain d ≡ false → (date_of d).month ≤ 12
    months (pos d) h = omega arith
    months (negsuc d) h = omega arith

    days : (d : ℤ) → is_out_of_range plain d ≡ false → (date_of d).day ≤ 31
    days (pos d) h = omega arith
    days (negsuc d) h = omega arith

    hours : (t : ℤ) → (tod_of t).hours ≤ 23
    hours (pos t) = omega arith
    hours (negsuc t) = omega arith

    minutes : (t : ℤ) → (tod_of t).minutes ≤ 59
    minutes (pos t) = omega arith
    minutes (negsuc t) = omega arith

    seconds : (t : ℤ) → (tod_of t).seconds ≤ 59
    seconds (pos t) = omega arith
    seconds (negsuc t) = omega arith

    subseconds : (t : ℤ) → (tod_of t).subseconds ≤ 999999
    subseconds (pos t) = omega arith
    subseconds (negsuc t) = omega arith

    wholes :
        (t : ℤ)
        → is_out_of_range plain (floor_of t) ≡ false
        → add_of (floor_of t) (
            (tod_of t).hours * per_hour
            + (tod_of t).minutes * per_minute
            + (tod_of t).seconds * per_second
            + (tod_of t).subseconds)
          ≡ t
    wholes (pos t) h = ap pos (omega arith)
    wholes (negsuc t) h = absurd (no_negative (t / per_day) h)
