-- ===== src/Udp.antt =====
-- `UdpHandler` of src/event/udp.rs. `to_string` is the `Display` of an address; log lines are left
-- out. `true` is `Ok(())` and `false` an error that is passed up. The unused `set_bind_to_device`,
-- `setup_fragment_socket_options` and `get_remote_addr_family` are not modelled.
pub mod Keeping
pub mod Later
pub mod Laws
pub mod Opened
pub mod Exchange
pub mod Responses
mod Tests
use Prim.Native.String.{String}
use tiny_port_mapper_rust.Address.{
  Address, FwdType, connected_udp_target, get_remote_addr_for_connect,
}
use tiny_port_mapper_rust.Common.Int.{ℤ, pos, negsuc}
use tiny_port_mapper_rust.Connection.{UdpSession}
use tiny_port_mapper_rust.FdManager
use tiny_port_mapper_rust.FdManager.{Fd64, RawFd, to_fd, exist}
use tiny_port_mapper_rust.Kernel.{Kernel, datagram, datagram_would_block, datagram_failed, readable}
use tiny_port_mapper_rust.Manager.Udp as Sessions
use tiny_port_mapper_rust.Stats.{inc_udp_sessions, add_udp_received, add_udp_sent}
use tiny_port_mapper_rust.Tokens.{generate_token}
use tiny_port_mapper_rust.World.{World, read_time}
use tiny_port_mapper_rust.Common.{
  ltb, leb, ◌==◌, if◌then◌else◌, length, sub_u64, minus_one, ℕ, Bool, true, false, ◌||◌, not,
  Option, none, some, List,
}

pub record UdpHandler : Type 0 where
  pub remote_addr : Address
  pub socket_buf_size : ℕ
  pub fwd_type : FwdType
  pub enable_fragment : Bool
  pub bind_interface : Option String

-- `as usize`
abbrev pub as_usize : ℤ → ℕ
as_usize (pos n) = n
as_usize (negsuc n) = sub_u64 minus_one n

module _ (k : Kernel) where
  -- `udp_manager.update_lru(…)`
  abbrev pub touch_session : World k → Address → World k
  touch_session w address =
      let (w', now) = read_time k w in record w' { udp = Sessions.update_lru w'.udp address now }

  -- What follows a `send` or `sendto`: its result is counted, errors too.
  abbrev pub after_send : World k → Address → ℤ → World k
  after_send w address (pos n) =
      touch_session (record w { stats = add_udp_sent w.stats (as_usize (pos n)) }) address
  after_send w address (negsuc n) = record w { stats = add_udp_sent w.stats (as_usize (negsuc n)) }

  -- The end of `on_datagram`: the packet goes to the socket of the session.
  unfoldable pub send_to_remote : World k → Address → Fd64 → List ℕ → World k
  send_to_remote w src_address session_fd64 bytes = elim (to_fd w.fd_manager session_fd64) [
    | none ↦ w
    | some remote_fd ↦
        let (os', sent) = k.send w.os remote_fd bytes in
        after_send (record w { os = os' }) src_address sent
  ]

  module _ (h : UdpHandler) (to_string : Address → String) where
    -- The two handles, the token and the session for a new socket. When the registration fails the
    -- descriptor is closed twice: by `libc::close`, and when the `UdpSocket` is dropped.
    unfoldable pub register_session : World k → RawFd → Address → RawFd → World k × Option Fd64
    unfolding FdManager.create FdManager.get_or_create read_time generate_token Sessions.new_session
    register_session w listen_raw_fd src_address udp_fd =
        let (w₁, now) = read_time k w in
        let (fds₁, remote_fd64) = FdManager.create w₁.fd_manager udp_fd now in
        let (fds₂, listen_fd64) = FdManager.get_or_create fds₁ listen_raw_fd now in
        let (tokens, tok) = generate_token w₁.token_manager remote_fd64 in
        let (os', good) = k.register w₁.os udp_fd tok readable in
        let w₂ : World k = record w₁ { fd_manager = fds₂; token_manager = tokens } in
        if not good then (record w₂ { os = k.close (k.close os' udp_fd) udp_fd }, none) else (
          record w₂ {
            os = os';
            udp =
                (Sessions.new_session w₂.udp src_address remote_fd64 listen_fd64
                  (to_string src_address) now).0;
            stats = inc_udp_sessions w₂.stats;
          },
          some remote_fd64,
        )

    -- The branch for an address without a session; `none` is an early return.
    unfoldable pub open_session : ℕ → World k → RawFd → Address → World k × Option Fd64
    unfolding register_session get_remote_addr_for_connect connected_udp_target
    open_session max_connections w listen_raw_fd src_address =
        if leb max_connections (Sessions.len w.udp)
        then (w, none)
        else (let target =
              connected_udp_target (get_remote_addr_for_connect h.fwd_type h.remote_addr) in
            let (os', udp_fd) = k.connected_udp w.os target h.socket_buf_size in
            elim udp_fd [
              | none ↦ (record w { os = os' }, none)
              | some fd ↦ register_session (record w { os = os' }) listen_raw_fd src_address fd
            ])

    -- With a packet of the size that was accepted.
    unfoldable pub forward_datagram : ℕ → World k → RawFd → Address → List ℕ → World k
    unfolding open_session send_to_remote
    forward_datagram max_connections w listen_raw_fd src_address bytes =
        elim (Sessions.get_session w.udp src_address) [
          | some s ↦ send_to_remote w src_address s.fd64 bytes
          | none ↦
              let (w', opened) = open_session max_connections w listen_raw_fd src_address in
              elim opened [ none ↦ w' | some fd64 ↦ send_to_remote w' src_address fd64 bytes ]
        ]

    unfoldable pub on_datagram : ℕ → World k → RawFd → World k × Bool
    unfolding forward_datagram
    on_datagram max_connections w listen_raw_fd =
        let (os', result) = k.recv_from w.os in
        let w' : World k = record w { os = os' } in
        elim result [
          | datagram_would_block ↦ (w', true)
          | datagram_failed ↦ (w', false)
          | datagram src_address bytes ↦
              if ltb 65534 (length bytes)
              then (w', true)
              else (forward_datagram max_connections w' listen_raw_fd src_address bytes, true)
        ]

  -- The end of `on_response`, with what was received.
  unfoldable pub send_to_client : World k → Fd64 → List ℕ → World k
  unfolding Sessions.get_session_by_fd64
  send_to_client w fd64 bytes = elim (Sessions.get_session_by_fd64 w.udp fd64) [
    | none ↦ w
    | some s ↦ elim (to_fd w.fd_manager s.local_listen_fd) [
      | none ↦ w
      | some listen_raw_fd ↦
          let (os', sent) = k.sendto w.os listen_raw_fd s.address bytes in
          after_send (record w { os = os' }) s.address sent
    ]
  ]

  unfoldable pub on_response : World k → Fd64 → World k
  unfolding send_to_client
  on_response w fd64 = elim (to_fd w.fd_manager fd64) [
    | none ↦ w
    | some fd ↦
        let (os', recv_len, bytes) = k.recv w.os fd 65537 in
        let w' : World k = record w {
          os = os';
          stats = add_udp_received w.stats (as_usize recv_len);
        } in
        elim recv_len [
          | negsuc _ ↦ w'
          | pos n ↦ if n == 0 || n == 65537 then w' else send_to_client w' fd64 bytes
        ]
  ]
