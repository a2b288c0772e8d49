-- ===== src/Lib.antt =====
-- A model of libnice, a library for ICE (Interactive Connectivity Establishment), in four parts.
--
-- Base holds what the parts share: tests on numbers, lists, and the memory of a C program.
-- A buffer is the list of its bytes, a pointer into it an index, and a read or a write outside the
-- buffer ends in `out_of_bounds`. A loop of the model that runs out of rounds ends in `no_fuel`.
--
-- Stun models stun/: messages and what they carry.
--   Stun/Types      stun/stunmessage.h, stun/stunagent.h: the data
--   Stun/Wire       stun/utils.c: padding, words of 16 bits, the type field
--   Stun/Message    stun/stunmessage.c: stun_message_init and the fields of the header;
--                   stun/stun5389.c: stun_message_has_cookie
--   Stun/Length     stun_message_validate_buffer_length and its fast variant on split buffers
--   Stun/Attribute  stun_message_find, stun_message_append
--   Stun/Value      the typed find and append functions
--   Stun/Sockaddr   the address attributes and their masking, also in stun/utils.c
--   Stun/Strerror   stun_strerror
--   Stun/Crc        stun/stuncrc32.c, and stun_fingerprint of stun/stun5389.c
--   Stun/Hmac       stun/stunhmac.c
--   Stun/Agent      stun/stunagent.c: Build begins a message (with stun_message_append_software of
--                   stun/stun5389.c), Finish signs it and remembers a request, Validate is
--                   stun_agent_validate
--   Stun/Timer      stun/usages/timer.c, the retransmission timer
--   Stun/IceUsage   stun/usages/ice.c, the messages of connectivity checks, which the agent builds and
--                   reads, and the conflict of roles (IceUsage/Conflict)
-- The validation says that the attributes of a buffer form a chain (`Chain` in Stun/Length/Chain),
-- and `IsMessage` is what an accepted buffer satisfies. A chain has a list of entries, and the
-- other functions are about that list: find looks an entry up, append adds one at the end. The agent
-- stands on all of these. Its state is the saved ids: finish_message enters one, `validate` looks a
-- response up and makes its id invalid, and `waiting` (Stun/Agent/Once) counts the valid ones that an
-- answer would match. `Ensures` (Base/Ensures) says what holds of a result where there is one, and has a
-- rule for each way a result is composed.
--
-- Ice models parts of agent/: agent/candidate.c, the priorities (Ice/Candidate), agent/address.c, addresses
-- (Ice/Address), the check lists of agent/conncheck.c (Ice/Check), and the components they move on, of
-- agent/agent.c and agent/component.c (Ice/Component).
--   Ice/Check            the pairs, the queue of triggered checks (Check/Queue), the next waiting pair
--   Ice/Check/Freeze     priv_conn_check_unfreeze_next, conn_check_unfreeze_related
--   Ice/Check/Order      conn_check_compare; what GLib's sorting gives is the interface `Sorts`, which
--                        Check/Sorting fills with insertion sort
--   Ice/Check/Limit      priv_limit_conn_check_list_size
--   Ice/Check/Prune      priv_prune_pending_checks
--   Ice/Check/Pairs      priv_add_new_check_pair, recalculate_pair_priorities, priv_check_for_role_conflict
--   Ice/Component        agent_signal_component_state_change
--   Ice/Component/Ready  conn_check_update_check_list_state_for_ready
--   Ice/Component/Nominate  the nomination in priv_map_reply_to_conn_check_request, conn_check_prune_socket,
--                        conn_check_update_selected_pair, nice_component_update_selected_pair
--   Ice/Component/Fail   priv_update_check_list_failed_components
-- A pair and a candidate are known by their addresses; a check list is the list of its pairs. `IsCheckList`
-- is what holds of a list and the queue together, and `Freed` (Check/Invariant) is how a walk that frees
-- pairs changes both.
--
-- PseudoTcp models parts of agent/pseudotcp.c: the clock and the sequence numbers, which wrap around
-- (PseudoTcp/Clock), the ring buffers of a socket (PseudoTcp/Fifo), whose abstract view is a list of
-- bytes, `content`, the states of a connection (PseudoTcp/State), and the part of `process` that puts
-- the data of segments together in the receive buffer (PseudoTcp/Receive). There a stream is a function
-- from places to bytes; sequence numbers are places modulo 2 ^ 32. PseudoTcp/Segment models the
-- functions `packet` and `parse`, which build a segment and take one apart, and PseudoTcp/Window
-- `resize_receive_buffer`, which scales the window to the 16 bits that a segment has for it.
--
-- A function of the model has the name of the C function without its prefix, takes the structure
-- that the C function changes and returns the changed one. Integers are natural numbers with
-- the wrap-around of their width written out: `% 2 ^ 16` for the length field, `% 2 ^ 32` for
-- priorities and times, `% 2 ^ 64` for sizes. The machine is little-endian with pointers of 64 bits.
--
-- Loops run on fuel: the walk over the attributes and the search for one get as many rounds as the
-- message has bytes, and every attribute takes at least four; the carry of a timer gets as many
-- rounds as there are microseconds; a buffer's size of 32 bits is halved 16 times at most. The loops over
-- check lists follow the list.
--
-- System calls, memory allocation and the clock are arguments, and so are the hash functions of the
-- cryptographic library (`Crypto`) and the callback that knows the passwords (`Validater`); nothing is
-- assumed of them. Not modelled: sockets, the GLib main loop, random transaction ids, the TURN
-- and binding usages, the timers, the messages and the discovery of the ICE agent, the sending side and the
-- congestion control of pseudo-TCP, bindings and tools.
pub mod Base
pub mod Ice
pub mod PseudoTcp
pub mod Stun
