-- ===== src/Media/Double.antt =====
-- The whole numbers among JavaScript's numbers, up to 2 ^ 64: a sum is rounded to 53 significant bits, and
-- in the middle between two such numbers to the even one.
use wave_realtime_edge.Common.{
  ℕ, zero, suc, ◌+◌, ◌*◌, ◌/◌, ◌%◌, ◌^◌, ◌<◌, ◌≡◌, arith, ltb, ◌==◌, if◌then◌else◌,
}

-- The nearest multiple of the unit.
abbrev nearest : ℕ → ℕ → ℕ
nearest unit n =
    let below = n / unit * unit in
    let rest = 2 * (n % unit) in
    if ltb rest unit
    then below
    else if ltb unit rest
    then below + unit
    else if n / unit % 2 == 0
    then below
    else below + unit

-- The unit doubles until 53 bits of it reach the number.
unfoldable round : ℕ → ℕ → ℕ → ℕ
round zero unit n = nearest unit n
round (suc doublings) unit n =
    let wider = round doublings (2 * unit) n in
    if ltb n (unit * 2 ^ 53) then nearest unit n else wider

-- Eleven doublings reach every number up to 2 ^ 64.
unfoldable pub to_double : ℕ → ℕ
unfolding round
to_double n = round 11 1 n

pub to_double_exact : (n : ℕ) → n < 2 ^ 53 → to_double n ≡ n
unfolding to_double
to_double_exact n h = ground arith
