-- ===== src/Host/Agreement.antt =====
-- The handshake of two hosts: enet_host_connect of toxtun/host.c on one side,
-- enet_protocol_handle_connect of toxtun/protocol.c on the other, and
-- enet_protocol_handle_verify_connect on the first again.
use toxsh.Prelude.{
  ℕ, ◌≤◌, ◌≡◌, refl, true, List, length, length-replicate, length-take, take, ltb, if◌then◌else◌,
  arith, ◌∙◌, sym,
}
use toxsh.Wire.{Handshake}
use toxsh.State.{Address, Channel, Host, Peer}
use toxsh.Protocol.Handshake.{
  accept, verification, take_terms, is_verified, is_channel_count, clamp_mtu, channels_for,
  fresh_channel,
}
use toxsh.Host.{begin_connection, request, clamp_channels}

-- What two peers at the ends of one connection have in common.
pub record Agreed (p q : Peer) : Type 0 where
  pub connection : p.session.connect_id ≡ q.session.connect_id
  pub sessions_there : p.session.outgoing_session_id ≡ q.session.incoming_session_id
  pub sessions_here : p.session.incoming_session_id ≡ q.session.outgoing_session_id
  pub peers_there : p.session.outgoing_peer_id ≡ q.session.incoming_peer_id
  pub peers_here : p.session.incoming_peer_id ≡ q.session.outgoing_peer_id
  pub mtu : p.mtu ≡ q.mtu
  pub channels : length p.channels ≡ length q.channels
  pub interval : p.throttle.packet_throttle_interval ≡ q.throttle.packet_throttle_interval
  pub acceleration :
      p.throttle.packet_throttle_acceleration ≡ q.throttle.packet_throttle_acceleration
  pub deceleration :
      p.throttle.packet_throttle_deceleration ≡ q.throttle.packet_throttle_deceleration

length-cut :
    (n m : ℕ) (xs : List Channel)
    → length xs ≡ m
    → n ≤ m
    → length (if ltb n (length xs) then take n xs else xs) ≡ n
length-cut n m xs e le = ground (arith, length-take n xs)

-- The two ends of a handshake.
module _ (here there : Host) (address : Address) (asked id data_ : ℕ) (p q : Peer) where
  -- The peer that asks, its request, the peer that answers, its answer, and the first peer at the end.
  abbrev pub begun : Peer
  begun = begin_connection here address (clamp_channels asked) id p

  abbrev pub asked_for : Handshake
  asked_for = request here (clamp_channels asked) begun

  abbrev pub answering : Peer
  answering = accept there asked_for data_ q

  abbrev pub answered : Handshake
  answered = verification there asked_for answering

  abbrev pub ready : Peer
  ready = take_terms answered begun

  asked_for-count : is_channel_count (clamp_channels asked) ≡ true
  unfolding is_channel_count clamp_channels
  asked_for-count = ground arith

  answered-count : 1 ≤ there.channel_limit → is_channel_count answered.channel_count ≡ true
  unfolding verification channels_for request is_channel_count clamp_channels
  answered-count h = ground arith

  channels_for-few : channels_for there asked_for ≤ clamp_channels asked
  unfolding channels_for request
  channels_for-few = ground arith

  -- The request of enet_host_connect passes the other side's test, its answer passes the test of
  -- enet_protocol_handle_verify_connect, and then both peers have the same connection number, MTU,
  -- number of channels and throttle settings, and each has the peer id and the session ids of the
  -- other; if the MTU of the asking peer is in the protocol's bounds and the other host's limit is at
  -- least one channel.
  pub handshake-Agreed :
      576 ≤ p.mtu
      → p.mtu ≤ 4096
      → 1 ≤ there.channel_limit
      → (is_channel_count asked_for.channel_count ≡ true)
        × (is_verified answered begun ≡ true)
        × Agreed ready answering
  unfolding is_verified accept take_terms verification request begin_connection clamp_mtu
      channels_for
  handshake-Agreed low high limit = (
    asked_for-count,
    ground (arith, answered-count limit),
    record {
      connection = refl;
      sessions_there = refl;
      sessions_here = refl;
      peers_there = refl;
      peers_here = refl;
      mtu = ground arith;
      channels =
          length-cut (channels_for there asked_for) (clamp_channels asked) begun.channels
            (length-replicate (clamp_channels asked) fresh_channel) channels_for-few
          ∙ sym (length-replicate (channels_for there asked_for) fresh_channel);
      interval = refl;
      acceleration = refl;
      deceleration = refl;
    },
  )
