-- ===== src/PseudoTcp/State/Closing.antt =====
-- How a pseudo-TCP connection comes to an end.
use libnice.Base.{
  Bool, true, false, ◌||◌, none, some, List, [], ◌∷◌, ◌≡◌, refl, inl, inr, arith, Option-cases,
  Bool-cases,
}
use libnice.PseudoTcp.State.{
  PseudoTcpState, listen, syn_sent, syn_received, established, closed, fin_wait_1, fin_wait_2,
  closing, time_wait, close_wait, last_ack, transition, code, set_state, set_states, closedown,
}

-- `closedown` trips no assertion in any state, and ends in CLOSED.
pub closedown-closes : (s : PseudoTcpState) → set_states s (closedown s) ≡ some closed
unfolding set_states set_state closedown transition code
closedown-closes listen = refl
closedown-closes syn_sent = refl
closedown-closes syn_received = refl
closedown-closes established = refl
closedown-closes closed = refl
closedown-closes fin_wait_1 = refl
closedown-closes fin_wait_2 = refl
closedown-closes closing = refl
closedown-closes time_wait = refl
closedown-closes close_wait = refl
closedown-closes last_ack = refl

-- Is TIME_WAIT or LAST_ACK among the states?
abbrev pub goodbye : PseudoTcpState → Bool
goodbye s = elim s [ time_wait ↦ true | last_ack ↦ true | _ ↦ false ]

abbrev pub says_goodbye : List PseudoTcpState → Bool
says_goodbye [] = false
says_goodbye (s ∷ ss) = goodbye s || says_goodbye ss

-- The states of a connection that was made and is not over.
abbrev pub is_connected : PseudoTcpState → Bool
is_connected s = elim s [
  | established ↦ true
  | fin_wait_1 ↦ true
  | fin_wait_2 ↦ true
  | closing ↦ true
  | close_wait ↦ true
  | _ ↦ false
]

-- Whether what `set_state` leaves is a connection, the assertion failed, or the new state is a goodbye.
keeps : PseudoTcpState → PseudoTcpState → Bool
keeps s new = elim (set_state s new) [ none ↦ true | some s' ↦ is_connected s' || goodbye new ]

keeps_established : (new : PseudoTcpState) → keeps established new ≡ true
unfolding keeps set_state transition code
keeps_established listen = refl
keeps_established syn_sent = refl
keeps_established syn_received = refl
keeps_established established = refl
keeps_established closed = refl
keeps_established fin_wait_1 = refl
keeps_established fin_wait_2 = refl
keeps_established closing = refl
keeps_established time_wait = refl
keeps_established close_wait = refl
keeps_established last_ack = refl

keeps_fin_wait_1 : (new : PseudoTcpState) → keeps fin_wait_1 new ≡ true
unfolding keeps set_state transition code
keeps_fin_wait_1 listen = refl
keeps_fin_wait_1 syn_sent = refl
keeps_fin_wait_1 syn_received = refl
keeps_fin_wait_1 established = refl
keeps_fin_wait_1 closed = refl
keeps_fin_wait_1 fin_wait_1 = refl
keeps_fin_wait_1 fin_wait_2 = refl
keeps_fin_wait_1 closing = refl
keeps_fin_wait_1 time_wait = refl
keeps_fin_wait_1 close_wait = refl
keeps_fin_wait_1 last_ack = refl

keeps_fin_wait_2 : (new : PseudoTcpState) → keeps fin_wait_2 new ≡ true
unfolding keeps set_state transition code
keeps_fin_wait_2 listen = refl
keeps_fin_wait_2 syn_sent = refl
keeps_fin_wait_2 syn_received = refl
keeps_fin_wait_2 established = refl
keeps_fin_wait_2 closed = refl
keeps_fin_wait_2 fin_wait_1 = refl
keeps_fin_wait_2 fin_wait_2 = refl
keeps_fin_wait_2 closing = refl
keeps_fin_wait_2 time_wait = refl
keeps_fin_wait_2 close_wait = refl
keeps_fin_wait_2 last_ack = refl

keeps_closing : (new : PseudoTcpState) → keeps closing new ≡ true
unfolding keeps set_state transition code
keeps_closing listen = refl
keeps_closing syn_sent = refl
keeps_closing syn_received = refl
keeps_closing established = refl
keeps_closing closed = refl
keeps_closing fin_wait_1 = refl
keeps_closing fin_wait_2 = refl
keeps_closing closing = refl
keeps_closing time_wait = refl
keeps_closing close_wait = refl
keeps_closing last_ack = refl

keeps_close_wait : (new : PseudoTcpState) → keeps close_wait new ≡ true
unfolding keeps set_state transition code
keeps_close_wait listen = refl
keeps_close_wait syn_sent = refl
keeps_close_wait syn_received = refl
keeps_close_wait established = refl
keeps_close_wait closed = refl
keeps_close_wait fin_wait_1 = refl
keeps_close_wait fin_wait_2 = refl
keeps_close_wait closing = refl
keeps_close_wait time_wait = refl
keeps_close_wait close_wait = refl
keeps_close_wait last_ack = refl

connected_keeps : (s new : PseudoTcpState) → is_connected s ≡ true → keeps s new ≡ true
connected_keeps listen new h = cc
connected_keeps syn_sent new h = cc
connected_keeps syn_received new h = cc
connected_keeps established new h = keeps_established new
connected_keeps closed new h = cc
connected_keeps fin_wait_1 new h = keeps_fin_wait_1 new
connected_keeps fin_wait_2 new h = keeps_fin_wait_2 new
connected_keeps closing new h = keeps_closing new
connected_keeps time_wait new h = cc
connected_keeps close_wait new h = keeps_close_wait new
connected_keeps last_ack new h = cc

open_not_closed : (s : PseudoTcpState) → is_connected s ≡ true → some s ≡ some closed → ⊥
open_not_closed s h e = cc

-- However the state of an established connection goes on, it comes to CLOSED only through
-- TIME_WAIT or LAST_ACK.
pub closed-says_goodbye :
    (s : PseudoTcpState) (news : List PseudoTcpState)
    → is_connected s ≡ true
    → set_states s news ≡ some closed
    → says_goodbye news ≡ true
unfolding set_states keeps
closed-says_goodbye s [] h e = absurd (open_not_closed s h e)
closed-says_goodbye s (new ∷ news) h e =
    let k = connected_keeps s new h in
    elim (Option-cases (set_state s new)) [
      | inl a ↦ absurd (ground (arith, a))
      | inr (s', a) ↦ elim (Bool-cases (goodbye new)) [
        | inl b ↦ rw b refl
        | inr b ↦
            let still : is_connected s' ≡ true = ground (arith, a, b, k) in
            let rest : set_states s' news ≡ some closed = ground (arith, a) in
            rw b (closed-says_goodbye s' news still rest)
      ]
    ]
