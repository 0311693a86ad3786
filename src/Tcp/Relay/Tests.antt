-- ===== src/Tcp/Relay/Tests.antt =====
-- The loops of `on_read` of src/event/tcp.rs on a scripted kernel.
use tiny_port_mapper_rust.Common.Int.{pos, negsuc}
use tiny_port_mapper_rust.Connection.{TcpEndpoint_new}
use tiny_port_mapper_rust.Kernel.Script.{Machine, Room, all, one_byte, full, recv, send, script}
use tiny_port_mapper_rust.Stats.{default}
use tiny_port_mapper_rust.Tcp.Relay.{Relay, next, leave, bad, local_round, remote_round, relay}
use tiny_port_mapper_rust.Tcp.Relay.Ends.{IsQuiet, remote_round_eq}
use tiny_port_mapper_rust.Tcp.Relay.Ledger.{Ledger, take-length}
use tiny_port_mapper_rust.Tcp.Relay.Delivery.{Delivered, relay_local-Delivered}
use tiny_port_mapper_rust.Tcp.Relay.Partial.{partial_send_drops, would_block_corrupts}
use tiny_port_mapper_rust.World.{out_of_bounds}
use tiny_port_mapper_rust.Common.{
  length, take, drop, length-append, take-append-drop, minus_one, ℕ, ◌+◌, ◌≤◌, ◌≡◌, refl, ap, false,
  List, [], ◌∷◌, ◌++◌, arith,
}

recv_takes_lem :
    (s : Machine) (len n : ℕ)
    → (recv s 5 len).1 ≡ pos n
    → length (recv s 5 len).0.incoming + n ≤ length s.incoming
recv_takes_lem s len n e = ground (
  arith,
  length-append (take len s.incoming) (drop len s.incoming),
  ap length (take-append-drop len s.incoming),
)

abbrev quiet : (room : Room) → IsQuiet (script room) 5 6
quiet all = record {
  queued = λ s. length s.incoming;
  recv_takes = recv_takes_lem;
  send_keeps = λ s bytes. omega arith;
}
quiet one_byte = record {
  queued = λ s. length s.incoming;
  recv_takes = recv_takes_lem;
  send_keeps = λ s bytes. omega arith;
}
quiet full = record {
  queued = λ s. length s.incoming;
  recv_takes = recv_takes_lem;
  send_keeps = λ s bytes. omega arith;
}

sent_lem :
    (room : Room) (s : Machine) (bytes : List ℕ) (n : ℕ)
    → (send room s 6 bytes).1 ≡ pos n
    → (n ≤ length bytes) × ((send room s 6 bytes).0.sent ≡ s.sent ++ take n bytes)
sent_lem all s bytes n e = ground (arith, take-length bytes)
sent_lem one_byte s [] n e = ground arith
sent_lem one_byte s (b ∷ bytes) n e = ground arith
sent_lem full s bytes n e = ground arith

some_lem :
    (s : Machine) (len n : ℕ)
    → (recv s 5 len).1 ≡ pos n
    → (length (recv s 5 len).2 ≡ n) × ((recv s 5 len).0.taken ≡ s.taken ++ (recv s 5 len).2)
some_lem s len n e = ground arith

none_lem :
    (s : Machine) (len n : ℕ) → (recv s 5 len).1 ≡ negsuc n → (recv s 5 len).0.taken ≡ s.taken
none_lem s len n e = ground arith

same_lem : (s : Machine) (len : ℕ) → (recv s 5 len).0.sent ≡ s.sent
same_lem s len = ground arith

fail_lem :
    (room : Room) (s : Machine) (bytes : List ℕ) (n : ℕ)
    → (send room s 6 bytes).1 ≡ negsuc n
    → (send room s 6 bytes).0.sent ≡ s.sent
fail_lem all s bytes n e = ground arith
fail_lem one_byte s bytes n e = ground arith
fail_lem full s bytes n e = refl

kept_lem : (room : Room) (s : Machine) (bytes : List ℕ) → (send room s 6 bytes).0.taken ≡ s.taken
kept_lem all s bytes = refl
kept_lem one_byte s bytes = refl
kept_lem full s bytes = refl

abbrev ledger : (room : Room) → Ledger (script room) 5 6
ledger room = record {
  taken = λ s. s.taken;
  accepted = λ s. s.sent;
  recv_some = some_lem;
  recv_none = none_lem;
  recv_accepted = same_lem;
  send_some = sent_lem room;
  send_none = fail_lem room;
  send_taken = kept_lem room;
}

abbrev first_bytes : List ℕ
first_bytes = 1 ∷ 2 ∷ 3 ∷ 4 ∷ []

abbrev start : (room : Room) → Relay (script room)
start room = record {
  os = record { incoming = 1 ∷ 2 ∷ 3 ∷ 4 ∷ 5 ∷ []; taken = []; sent = [] };
  remote = TcpEndpoint_new 2 4;
  stats = default;
}

remote_round_eq_example :
    remote_round (script all) 5 6 (start all) ≡ local_round (script all) false 5 6 (start all)
remote_round_eq_example = remote_round_eq (script all) 5 6 (start all)

relay_local-Delivered_example :
    Delivered
      (script all)
      5
      6
      (ledger all)
      (start all)
      (relay (script all) 6 (local_round (script all) false 5 6) (start all))
relay_local-Delivered_example =
    relay_local-Delivered (script all) 5 6 (ledger all) (quiet all) 6 (start all) (λ s bytes. refl)
      refl (omega arith)

partial_send_drops_example :
    (r' : Relay (script one_byte)) × (local_round (script one_byte) false 5 6 (start one_byte)
      ≡ next r')
    × (r'.os.taken ≡ [] ++ first_bytes)
    × (r'.os.sent ≡ [] ++ (1 ∷ []))
    × (length first_bytes ≡ 4)
    × (r'.remote.data_len ≡ 0)
partial_send_drops_example =
    partial_send_drops (script one_byte) 5 6 (ledger one_byte) (start one_byte) 4 refl refl
      (omega arith) 1 refl (omega arith) (omega arith)

would_block_corrupts_example :
    (r' : Relay (script full)) × (local_round (script full) false 5 6 (start full) ≡ leave r')
    × (r'.remote.data_len ≡ 1)
    × (r'.remote.begin ≡ minus_one)
    × (r'.os.taken ≡ [] ++ first_bytes)
    × (r'.os.sent ≡ [])
    × (local_round (script full) false 5 6 r' ≡ bad out_of_bounds)
would_block_corrupts_example =
    would_block_corrupts (script full) 5 6 (ledger full) (start full) 4 refl refl (omega arith) 0
      refl refl refl (omega arith)
