-- ===== src/Runtime/Backoff.antt =====
-- The bounds of the poll scheduler's backoff, and that its ticks keep their grid.
use native.Mathlib.Nat.{div-add-mod, mod-lt, mul_comm, mul_assoc, mul-le-mul_left, pow-le-pow_right}
use obehy.Prelude.{
  ℕ, ◌+◌, ◌-◌, ◌*◌, ◌/◌, ◌%◌, ◌^◌, ◌≤◌, ◌<◌, min, max, ◌≡◌, ◌≢◌, refl, false, some, ltb, leb,
  leb→lt, leb→le, nat_beq_iff, nat_beq, arith, inl, inr, Bool-cases, ◌⊎◌,
}
use obehy.Runtime.Poll.{Poll, ok, Channel}
use obehy.Runtime.Scheduler.{
  blocked, blocked_steps, backoff_interval, failures_after, missed, next_tick, on_grid, Ticks, turn,
}

swap : (i q : ℕ) → (i * 1000000000) * q ≡ (q * i) * 1000000000
swap i q = rw (mul_comm (i * 1000000000) q, mul_assoc q i 1000000000) refl

-- How many whole intervals the missed ticks take: the next one is after now, and the one before
-- is not, as long as an interval is at most a thousand seconds.
missed-bounds :
    (late interval : ℕ)
    → 0 < interval
    → interval ≤ 1000000000
    → (late < missed late interval * interval) × (missed late interval * interval ≤ late + interval)
unfolding missed
missed-bounds late interval h k =
    let n = late * 1000000000 + interval + interval * 1000000000 - 1 in
    let m = interval * 1000000000 in
    let q = n / m in
    let e : m * q + n % m ≡ n = div-add-mod n m in
    let r : n % m < m = mod-lt n (omega arith) in
    let p : m * q ≡ (q * interval) * 1000000000 = swap interval q in
    (omega (arith, e, r, p), omega (arith, e, r, p))

-- While polls fail in a row, the interval is never shorter than the shorter of the channel's own
-- and its `max_backoff_s`, nor longer than the longer of them.
pub backoff_interval-bounds :
    (c : Channel) (failures : ℕ)
    → (min c.interval_s c.max_backoff_s ≤ backoff_interval c failures)
      × (backoff_interval c failures ≤ max c.interval_s c.max_backoff_s)
unfolding backoff_interval
backoff_interval-bounds c failures = elim (Bool-cases (ltb failures c.backoff_after)) [
  | inl few ↦ rw few (omega arith, omega arith)
  | inr many ↦ rw many (omega arith, omega arith)
]

long-backoff :
    (c : Channel) (failures : ℕ)
    → c.backoff_after + blocked_steps ≤ failures
    → c.interval_s ≤ c.max_backoff_s
    → c.max_backoff_s ≤ c.interval_s * 2 ^ 33
    → backoff_interval c failures ≡ c.max_backoff_s
unfolding backoff_interval
long-backoff c failures many h k =
    let e = failures - c.backoff_after + 1 in
    let grows : 2 ^ 33 ≤ 2 ^ e =
      pow-le-pow_right {n = 2} (omega arith) {i = 33} (omega (arith, many)) in
    let more : c.interval_s * 2 ^ 33 ≤ c.interval_s * 2 ^ e = mul-le-mul_left c.interval_s grows in
    let past : ltb failures c.backoff_after ≡ false = ground arith in
    rw past (omega (arith, more, h, k))

blocked-failures :
    (c : Channel) (failures : ℕ) (poll : Poll)
    → poll.status ≡ some blocked
    → c.backoff_after + blocked_steps ≤ failures_after c failures poll
unfolding failures_after ok
blocked-failures c failures poll q = ground arith

-- A refusal (403) makes the channel wait its whole `max_backoff_s` at once, whatever failed
-- before, if that is between the interval and 2 ^ 33 times the interval.
pub blocked-backoff :
    (c : Channel) (failures : ℕ) (poll : Poll)
    → poll.status ≡ some blocked
    → c.interval_s ≤ c.max_backoff_s
    → c.max_backoff_s ≤ c.interval_s * 2 ^ 33
    → backoff_interval c (failures_after c failures poll) ≡ c.max_backoff_s
blocked-backoff c failures poll q h k =
    long-backoff c (failures_after c failures poll) (blocked-failures c failures poll q) h k

succ_mul : (q i : ℕ) → (1 + q) * i ≡ i + q * i
succ_mul q i = omega arith

on_grid-bounds :
    (tick interval now : ℕ)
    → 0 < interval
    → interval ≤ 1000000000
    → tick ≤ now
    → (now < on_grid tick interval now)
      × (on_grid tick interval now ≤ now + interval)
      × ((k : ℕ) × (on_grid tick interval now ≡ tick + k * interval))
unfolding on_grid
on_grid-bounds tick interval now h k p = elim (Bool-cases (leb (tick + interval) now)) [
  | inr soon ↦
      rw soon (omega (arith, leb→lt (tick + interval) now soon), omega arith, (1, omega arith))
  | inl late ↦
      let m = missed-bounds (now - (tick + interval)) interval h k in
      let le = leb→le (tick + interval) now late in
      let q = missed (now - (tick + interval)) interval in
      let one_more : (1 + q) * interval ≡ interval + q * interval = succ_mul q interval in
      rw late (omega (arith, m.0, le), omega (arith, m.1, le), (1 + q, omega (arith, one_more)))
]

next_tick-cases :
    (c : Channel) (tick interval now : ℕ)
    → 0 < c.interval_s
    → c.interval_s ≤ 1000000000
    → tick ≤ now
    → (interval ≡ c.interval_s)
        × (now < next_tick c tick interval now)
        × (next_tick c tick interval now ≤ now + c.interval_s)
        × ((k : ℕ) × (next_tick c tick interval now ≡ tick + k * c.interval_s))
      ⊎ ((interval ≢ c.interval_s) × (next_tick c tick interval now ≡ now + interval))
unfolding next_tick
next_tick-cases c tick interval now h k p = elim (Bool-cases (nat_beq interval c.interval_s)) [
  | inr backs ↦
      inr
        (λ same. cc ((nat_beq_iff interval c.interval_s).1 same, backs), rw (next_tick, backs) refl)
  | inl regular ↦
      let same = (nat_beq_iff interval c.interval_s).0 regular in
      let (after, soon, k') = on_grid-bounds tick c.interval_s now h k p in
      inl (rw (next_tick, regular, same) (refl, after, soon, k'))
]

-- For a channel's own interval of at most a thousand seconds and a tick that has passed: while
-- the backoff leaves the interval as it is, the next tick stands on the channel's grid, after now
-- and at most one interval away; exactly when it does not, the next tick is the changed interval
-- from now.
pub turn-tick :
    (c : Channel) (t : Ticks) (poll : Poll) (now : ℕ)
    → 0 < c.interval_s
    → c.interval_s ≤ 1000000000
    → t.tick ≤ now
    → (backoff_interval c (failures_after c t.failures poll) ≡ c.interval_s)
        × (now < (turn c t poll now).tick)
        × ((turn c t poll now).tick ≤ now + c.interval_s)
        × ((k : ℕ) × ((turn c t poll now).tick ≡ t.tick + k * c.interval_s))
      ⊎ ((backoff_interval c (failures_after c t.failures poll) ≢ c.interval_s)
          × ((turn c t poll now).tick
              ≡ now + backoff_interval c (failures_after c t.failures poll)))
unfolding turn
turn-tick c t poll now h k p =
    next_tick-cases c t.tick (backoff_interval c (failures_after c t.failures poll)) now h k p
