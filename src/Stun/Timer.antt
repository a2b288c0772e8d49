-- ===== src/Stun/Timer.antt =====
-- stun/usages/timer.c: the retransmission timer of a transaction. The clock of the system
-- (`stun_gettime`) is an argument, the time that it gives when the function asks.
pub mod Deadline
use libnice.Base.{
  ℕ, zero, suc, ◌+◌, ◌-◌, ◌*◌, ◌/◌, ◌%◌, ◌^◌, Bool, true, false, ◌&&◌, ltb, leb, ◌==◌,
  if◌then◌else◌, List, [], ◌∷◌,
}

-- `struct timeval`
pub record Time : Type 0 where
  pub sec : ℕ
  pub usec : ℕ

-- `StunTimer`; the counts are `unsigned`, of 32 bits.
pub record StunTimer : Type 0 where
  pub deadline : Time
  pub delay : ℕ
  pub retransmissions : ℕ
  pub max_retransmissions : ℕ

-- `StunUsageTimerReturn`
pub data Answer : Type 0 where
  success retransmit timeout : Answer

-- `while (ts->tv_usec > 1000000)`: every round takes a million off, so `usec` rounds are enough.
unfoldable pub carry : ℕ → Time → Time
carry zero t = t
carry (suc fuel) t = elim (ltb 1000000 t.usec) [
  | true ↦ carry fuel (record { sec = t.sec + 1; usec = t.usec - 1000000 })
  | false ↦ t
]

-- `set_delay`
unfoldable pub set_delay : Time → ℕ → Time
set_delay now delay =
    let usec = now.usec + delay % 1000 * 1000 in
    carry usec (record { sec = now.sec + delay / 1000; usec = usec })

-- `stun_timer_start`
unfoldable pub start : Time → ℕ → ℕ → StunTimer
start now initial_timeout max_retransmissions = record {
  deadline = set_delay now initial_timeout;
  delay = initial_timeout;
  retransmissions = 1;
  max_retransmissions = max_retransmissions;
}

-- `stun_timer_start_reliable`
unfoldable pub start_reliable : Time → ℕ → StunTimer
unfolding start
start_reliable now initial_timeout = start now initial_timeout 0

-- `stun_timer_remainder`. The difference of the microseconds is signed and its quotient is
-- rounded towards zero; the sum is `unsigned`.
unfoldable pub remainder : Time → StunTimer → ℕ
remainder now timer =
    let due = timer.deadline in
    let delay = (due.sec - now.sec) % 2 ^ 32 in
    if ltb due.sec now.sec
    then 0
    else if delay == 0 && leb due.usec now.usec
    then 0
    else if leb now.usec due.usec
    then (delay * 1000 + (due.usec - now.usec) / 1000) % 2 ^ 32
    else (delay * 1000 + 2 ^ 32 - (now.usec - due.usec) / 1000) % 2 ^ 32

-- `stun_timer_refresh`: the timer, and what is returned. It asks for the time twice, `now` for the
-- remainder and `later` for the new deadline.
unfoldable pub refresh : Time → Time → StunTimer → StunTimer × Answer
refresh now later timer =
    let delay =
      if timer.retransmissions == (timer.max_retransmissions + 2 ^ 32 - 1) % 2 ^ 32
      then timer.delay / 2
      else timer.delay * 2 % 2 ^ 32 in
    if remainder now timer == 0
    then if leb timer.max_retransmissions timer.retransmissions then (timer, timeout) else (
      record timer {
        delay = delay;
        deadline = set_delay later delay;
        retransmissions = (timer.retransmissions + 1) % 2 ^ 32;
      },
      retransmit,
    )
    else (timer, success)

-- Refreshes one after another, at any times, with the answers.
unfoldable pub refreshes : StunTimer → List (Time × Time) → StunTimer × List Answer
refreshes timer [] = (timer, [])
refreshes timer ((now, later) ∷ rest) =
    let (timer', answer) = refresh now later timer in
    let (last, answers) = refreshes timer' rest in (last, answer ∷ answers)
