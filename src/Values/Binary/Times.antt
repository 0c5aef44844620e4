-- ===== src/Values/Binary/Times.antt =====
-- A `time` that was sent in the binary protocol is read back.
use mysql_asio.Base.{
  ℕ, ◌+◌, ◌*◌, ◌/◌, ◌%◌, ◌^◌, ◌<◌, ◌≤◌, ◌≡◌, refl, false, ◌||◌, not, List, ◌++◌, append_assoc, ltb,
  ◌==◌, if◌then◌else◌, arith,
}
use mysql_asio.Base.Int.{ℤ, pos, negsuc}
use mysql_asio.Base.Error.{ok}
use mysql_asio.Serialization.{get_int_size, deserialize, serialize}
use mysql_asio.Serialization.RoundTrip.{deserialize-serialize}
use mysql_asio.Values.{
  microseconds, per_second, per_minute, per_hour, per_day, magnitude, is_negative, with_sign,
}
use mysql_asio.Values.Binary.{deserialize_binary_value_time}
use mysql_asio.Values.Binary.Sending.{
  hms_fields, one_byte, four_bytes, sign_dhms_fields, serialize_binary_time,
}

pub one_byte_back :
    (v : ℕ) (rest : List ℕ)
    → v < 256
    → deserialize one_byte (serialize one_byte (v, tt) ++ rest) ≡ ok ((v, tt), rest)
unfolding get_int_size
one_byte_back v rest h = deserialize-serialize one_byte (v, tt) rest (h, tt) (tt, tt)

pub four_bytes_back :
    (v : ℕ) (rest : List ℕ)
    → v < 256 ^ 4
    → deserialize four_bytes (serialize four_bytes (v, tt) ++ rest) ≡ ok ((v, tt), rest)
unfolding get_int_size
four_bytes_back v rest h = deserialize-serialize four_bytes (v, tt) rest (h, tt) (tt, tt)

pub hms_back :
    (h m s : ℕ) (rest : List ℕ)
    → h ≤ 23
    → m ≤ 59
    → s ≤ 59
    → deserialize hms_fields (serialize hms_fields (h, (m, (s, tt))) ++ rest)
      ≡ ok ((h, (m, (s, tt))), rest)
unfolding get_int_size
hms_back h m s rest hh hm hs =
    deserialize-serialize hms_fields (h, (m, (s, tt))) rest
      (omega arith, (omega arith, (omega arith, tt))) (tt, (tt, (tt, tt)))

sign_dhms_back :
    (sign d h m s : ℕ) (rest : List ℕ)
    → sign ≤ 1
    → d ≤ 34
    → h ≤ 23
    → m ≤ 59
    → s ≤ 59
    → deserialize sign_dhms_fields
        (serialize sign_dhms_fields (sign, (d, (h, (m, (s, tt))))) ++ rest)
      ≡ ok ((sign, (d, (h, (m, (s, tt))))), rest)
unfolding get_int_size
sign_dhms_back sign d h m s rest hg hd hh hm hs =
    deserialize-serialize sign_dhms_fields (sign, (d, (h, (m, (s, tt))))) rest
      (omega arith, (omega arith, (omega arith, (omega arith, (omega arith, tt)))))
      (tt, (tt, (tt, (tt, (tt, tt)))))

-- What a `time` is cut into is put together again.
recompose :
    (n : ℕ)
    → n / per_day * per_day
        + n % per_day / per_hour * per_hour
        + n % per_hour / per_minute * per_minute
        + n % per_minute / per_second * per_second
        + n % per_second
      ≡ n
recompose n = omega arith

sign_back : (z : ℤ) → with_sign (not ((if is_negative z then 1 else 0) == 0)) (magnitude z) ≡ z
sign_back (pos k) = refl
sign_back (negsuc k) = refl

sign_le : (z : ℤ) → (if is_negative z then 1 else 0) ≤ 1
sign_le (pos k) = omega arith
sign_le (negsuc k) = omega arith

checks_pass :
    (d h m s us : ℕ)
    → d ≤ 34
    → h ≤ 23
    → m ≤ 59
    → s ≤ 59
    → us ≤ 999999
    → (ltb 34 d || ltb 23 h || ltb 59 m || ltb 59 s || ltb 999999 us) ≡ false
checks_pass d h m s us hd hh hm hs hu = ground arith

pub time_back :
    (t : ℤ) (rest : List ℕ)
    → magnitude t < 35 * per_day
    → deserialize_binary_value_time (serialize_binary_time t ++ rest) ≡ ok (microseconds t, rest)
unfolding deserialize_binary_value_time serialize_binary_time
time_back t rest h =
    let n = magnitude t in
    rw
      (
        append_assoc (serialize one_byte (12, tt)) _ rest,
        one_byte_back 12 _ (omega arith),
        append_assoc (serialize sign_dhms_fields _) (serialize four_bytes _) rest,
        sign_dhms_back (if is_negative t then 1 else 0) (n / per_day) (n % per_day / per_hour)
            (n % per_hour / per_minute) (n % per_minute / per_second) _ (sign_le t) (omega arith)
            (omega arith) (omega arith) (omega arith),
        four_bytes_back (n % per_second) rest (omega arith),
        checks_pass (n / per_day) (n % per_day / per_hour) (n % per_hour / per_minute)
            (n % per_minute / per_second) (n % per_second) (omega arith) (omega arith) (omega arith)
            (omega arith) (omega arith),
        recompose n,
        sign_back t,
      )
      refl
