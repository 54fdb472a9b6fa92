-- ===== src/Config/Durations.antt =====
-- Durations in the configuration that are given as a number of seconds.
use nomad_ondemand_scaler.Prelude.{
  ℕ, ◌*◌, ◌%◌, ◌^◌, ◌≤◌, ◌≡◌, ◌↔◌, refl, String, Option, some, arith,
}
use nomad_ondemand_scaler.Prelude.Int.{ℤ, pos, signed_64, signed_64_small}
use nomad_ondemand_scaler.Config.{
  nanoseconds, an_int, duration, seconds, decode_variable, decode_to_time_duration,
}

seconds_exact : (n : ℕ) → n ≤ 9223372036 → seconds (pos n) ≡ pos (n * 1000000000)
unfolding seconds
seconds_exact n h =
    let small : n * 1000000000 % 2 ^ 64 ≡ n * 1000000000 = omega arith in
    rw small (signed_64_small (n * 1000000000) (omega arith))

seconds_wrap : (n : ℕ) → seconds (pos n) ≡ pos (n * 1000000000) → n ≤ 9223372036
unfolding seconds signed_64
seconds_wrap n h = ground arith

-- A whole number of seconds that is not negative becomes a duration without an error, and that is its exact
-- number of nanoseconds if and only if it is at most 9223372036.
pub decode_variable-exact :
    {D X : Type 0} (parse_duration : String → Option ℤ) (compile : String → Option X) (n : ℕ)
    → (d : ℤ) × (decode_variable {D = D} parse_duration compile duration (an_int (pos n))
        ≡ some (nanoseconds d))
      × ((d ≡ pos (n * 1000000000)) ↔ (n ≤ 9223372036))
unfolding decode_variable decode_to_time_duration
decode_variable-exact parse_duration compile n =
    (seconds (pos n), refl, (seconds_wrap n, seconds_exact n))
