-- ===== src/Stun/Timer/Deadline.antt =====
-- The deadline that is set, and the time that remains to it.
use libnice.Base.{ℕ, zero, suc, ◌+◌, ◌-◌, ◌*◌, ◌/◌, ◌%◌, ◌^◌, ◌≤◌, ◌<◌, ◌≡◌, refl, arith}
use libnice.Stun.Timer.{Time, StunTimer, carry, set_delay, remainder}

-- The microseconds that a time stands for.
abbrev pub micros : Time → ℕ
micros t = t.sec * 1000000 + t.usec

carry_lem :
    (fuel : ℕ) (t : Time)
    → t.usec ≤ fuel
    → (micros (carry fuel t) ≡ micros t) × ((carry fuel t).usec ≤ 1000000)
unfolding carry
carry_lem zero t h = (refl, omega arith)
carry_lem (suc fuel) t h =
    ground (arith, carry_lem fuel (record { sec = t.sec + 1; usec = t.usec - 1000000 }))

-- `set_delay` puts the deadline exactly `delay` milliseconds behind the time, and its
-- microseconds are at most a million.
pub set_delay-micros :
    (now : Time) (delay : ℕ)
    → (micros (set_delay now delay) ≡ micros now + delay * 1000)
      × ((set_delay now delay).usec ≤ 1000000)
unfolding set_delay
set_delay-micros now delay =
    let t : Time = record { sec = now.sec + delay / 1000; usec = now.usec + delay % 1000 * 1000 } in
    omega (arith, carry_lem t.usec t (omega arith))

-- At a time of less than a million microseconds within its second, and a deadline of at most a
-- million that is less than 2 ^ 22 seconds away, what `stun_timer_remainder` returns is less than
-- a millisecond off the time that is left, so it is 0 past the deadline.
pub remainder_bounds :
    (now : Time) (timer : StunTimer)
    → now.usec < 1000000
    → timer.deadline.usec ≤ 1000000
    → timer.deadline.sec < now.sec + 2 ^ 22
    → (1000 * remainder now timer < micros timer.deadline - micros now + 1000)
      × (micros timer.deadline - micros now < 1000 * remainder now timer + 1000)
unfolding remainder
remainder_bounds now timer h q r = (ground arith, ground arith)
