-- ===== src/Values/Binary/Dates.antt =====
-- A `date` and a `datetime` that were sent in the binary protocol are read back, if the date library
-- keeps its promises.
use mysql_asio.Base.{
  ℕ, ◌+◌, ◌*◌, ◌^◌, ◌≤◌, ◌≡◌, refl, sym, true, false, ◌||◌, List, ◌++◌, append_assoc, ltb, arith,
}
use mysql_asio.Base.Int.{ℤ, pos, to_pattern}
use mysql_asio.Base.Error.{ok}
use mysql_asio.Serialization.{get_int_size, deserialize, serialize}
use mysql_asio.Serialization.RoundTrip.{deserialize-serialize}
use mysql_asio.Values.{
  sys_days, sys_time, YearMonthDay, Calendar, is_out_of_range, per_second, per_minute, per_hour,
}
use mysql_asio.Values.Binary.{
  deserialize_binary_ymd, deserialize_binary_value_date, deserialize_binary_value_datetime,
}
use mysql_asio.Values.Binary.Sending.{
  ymd_fields, hms_fields, one_byte, four_bytes, serialize_binary_ymd, serialize_binary_date,
  serialize_binary_datetime,
}
use mysql_asio.Values.Binary.Times.{one_byte_back, four_bytes_back, hms_back}

-- What the code relies on in the date library, for the days that are in range: the date of a day is
-- valid, has its fields in their ranges and gives back the day, and a time of day has its fields in
-- their ranges and gives back the time.
pub record IsLawful (cal : Calendar) : Type 0 where
  pub back : (d : ℤ) → is_out_of_range cal d ≡ false → cal.days_of (cal.ymd_of d) ≡ d
  pub valid : (d : ℤ) → is_out_of_range cal d ≡ false → cal.is_ok (cal.ymd_of d) ≡ true
  pub year_fits :
      (d : ℤ) → is_out_of_range cal d ≡ false → (y : ℕ) × ((cal.ymd_of d).year ≡ pos y) × (y ≤ 9999)
  pub month_fits : (d : ℤ) → is_out_of_range cal d ≡ false → (cal.ymd_of d).month ≤ 12
  pub day_fits : (d : ℤ) → is_out_of_range cal d ≡ false → (cal.ymd_of d).day ≤ 31
  pub hours_fit : (t : ℤ) → (cal.time_of_day t).hours ≤ 23
  pub minutes_fit : (t : ℤ) → (cal.time_of_day t).minutes ≤ 59
  pub seconds_fit : (t : ℤ) → (cal.time_of_day t).seconds ≤ 59
  pub subseconds_fit : (t : ℤ) → (cal.time_of_day t).subseconds ≤ 999999
  pub whole :
      (t : ℤ)
      → is_out_of_range cal (cal.floor_days t) ≡ false
      → cal.add_micros (cal.floor_days t) (
          (cal.time_of_day t).hours * per_hour
          + (cal.time_of_day t).minutes * per_minute
          + (cal.time_of_day t).seconds * per_second
          + (cal.time_of_day t).subseconds)
        ≡ t

pattern_of_year : (z : ℤ) (y : ℕ) → z ≡ pos y → y ≤ 9999 → to_pattern (2 ^ 16) z ≡ y
unfolding to_pattern
pattern_of_year z y e h = rw e (omega arith)

ymd_checks_pass :
    (y m d : ℕ) → y ≤ 9999 → m ≤ 12 → d ≤ 31 → (ltb 9999 y || ltb 12 m || ltb 31 d) ≡ false
ymd_checks_pass y m d hy hm hd = ground arith

ymd_fields_back :
    (y m d : ℕ) (rest : List ℕ)
    → y ≤ 9999
    → m ≤ 12
    → d ≤ 31
    → deserialize ymd_fields (serialize ymd_fields (y, (m, (d, tt))) ++ rest)
      ≡ ok ((y, (m, (d, tt))), rest)
unfolding get_int_size
ymd_fields_back y m d rest hy hm hd =
    deserialize-serialize ymd_fields (y, (m, (d, tt))) rest
      (omega arith, (omega arith, (omega arith, tt))) (tt, (tt, (tt, tt)))

ymd_back :
    (ymd : YearMonthDay) (y : ℕ) (rest : List ℕ)
    → ymd.year ≡ pos y
    → y ≤ 9999
    → ymd.month ≤ 12
    → ymd.day ≤ 31
    → deserialize_binary_ymd (serialize_binary_ymd ymd ++ rest) ≡ ok (ymd, rest)
unfolding deserialize_binary_ymd serialize_binary_ymd
ymd_back ymd y rest e hy hm hd =
    rw
      (
        pattern_of_year ymd.year y e hy,
        ymd_fields_back y ymd.month ymd.day rest hy hm hd,
        ymd_checks_pass y ymd.month ymd.day hy hm hd,
        sym e,
      )
      refl

module _ (cal : Calendar) (law : IsLawful cal) where
  day_back :
      (d : ℤ) (rest : List ℕ)
      → is_out_of_range cal d ≡ false
      → deserialize_binary_ymd (serialize_binary_ymd (cal.ymd_of d) ++ rest)
        ≡ ok (cal.ymd_of d, rest)
  day_back d rest h =
      let (y, e, l) = law.year_fits d h in
      ymd_back (cal.ymd_of d) y rest e l (law.month_fits d h) (law.day_fits d h)

  pub date_back :
      (d : ℤ) (rest : List ℕ)
      → is_out_of_range cal d ≡ false
      → deserialize_binary_value_date cal (serialize_binary_date cal d ++ rest)
        ≡ ok (sys_days d, rest)
  unfolding deserialize_binary_value_date serialize_binary_date
  date_back d rest h =
      rw
        (
          append_assoc (serialize one_byte (4, tt)) _ rest,
          one_byte_back 4 _ (omega arith),
          day_back d rest h,
          law.valid d h,
          law.back d h,
          h,
        )
        refl

  time_checks_pass :
      (h m s us : ℕ)
      → h ≤ 23
      → m ≤ 59
      → s ≤ 59
      → us ≤ 999999
      → (ltb 23 h || ltb 59 m || ltb 59 s || ltb 999999 us) ≡ false
  time_checks_pass h m s us hh hm hs hu = ground arith

  pub datetime_back :
      (t : ℤ) (rest : List ℕ)
      → is_out_of_range cal (cal.floor_days t) ≡ false
      → deserialize_binary_value_datetime cal (serialize_binary_datetime cal t ++ rest)
        ≡ ok (sys_time t, rest)
  unfolding deserialize_binary_value_datetime serialize_binary_datetime
  datetime_back t rest h =
      let tod = cal.time_of_day t in
      rw
        (
          append_assoc (serialize one_byte (11, tt)) _ rest,
          one_byte_back 11 _ (omega arith),
          append_assoc (serialize_binary_ymd (cal.ymd_of (cal.floor_days t))) _ rest,
          day_back (cal.floor_days t) _ h,
          append_assoc (serialize hms_fields _) (serialize four_bytes _) rest,
          hms_back tod.hours tod.minutes tod.seconds _ (law.hours_fit t) (law.minutes_fit t)
              (law.seconds_fit t),
          four_bytes_back tod.subseconds rest (omega (arith, law.subseconds_fit t)),
          time_checks_pass tod.hours tod.minutes tod.seconds tod.subseconds (law.hours_fit t)
              (law.minutes_fit t) (law.seconds_fit t) (law.subseconds_fit t),
          law.valid (cal.floor_days t) h,
          law.back (cal.floor_days t) h,
          h,
          law.whole t h,
        )
        refl
