-- ===== src/Tests/Fixtures.antt =====
-- A connected peer with one channel, and reliable messages for it.
use toxsh.Prelude.{map, ℕ, ◌+◌, ◌%◌, false, true, List, [], ◌∷◌, none, some, replicate}
use toxsh.Wire.{Protocol, send_reliable}
use toxsh.Memory.{IncomingCommand}
use toxsh.State.{Address, Channel, Peer, Host, Site, connected}
use toxsh.Peer.Queue.{QueueAllocation}

abbrev pub nowhere : Address
nowhere = record { host = 0; port = 0; vaddr = 0 }

abbrev pub quiet_channel : Channel
quiet_channel = record {
  outgoing_reliable_sequence_number = 0;
  outgoing_unreliable_sequence_number = 0;
  used_reliable_windows = 0;
  reliable_windows = replicate 16 0;
  incoming_reliable_sequence_number = 0;
  incoming_unreliable_sequence_number = 0;
  incoming_reliable_commands = [];
  incoming_unreliable_commands = [];
}

abbrev pub quiet_peer : Peer
quiet_peer = record {
  state = connected;
  session = record {
    outgoing_peer_id = 0;
    incoming_peer_id = 0;
    connect_id = 7;
    outgoing_session_id = 1;
    incoming_session_id = 1;
    address = nowhere;
  };
  throttle = record {
    packet_throttle = 32;
    packet_throttle_limit = 32;
    packet_throttle_counter = 0;
    packet_throttle_epoch = 0;
    packet_throttle_acceleration = 2;
    packet_throttle_deceleration = 2;
    packet_throttle_interval = 5000;
  };
  round_trip = record {
    last_round_trip_time = 500;
    lowest_round_trip_time = 500;
    last_round_trip_time_variance = 0;
    highest_round_trip_time_variance = 0;
    round_trip_time = 500;
    round_trip_time_variance = 0;
  };
  loss = record {
    packet_loss_epoch = 0;
    packets_sent = 0;
    packets_lost = 0;
    packet_loss = 0;
    packet_loss_variance = 0;
  };
  timing = record {
    last_send_time = 0;
    last_receive_time = 0;
    next_timeout = 0;
    earliest_timeout = 0;
    ping_interval = 500;
    timeout_limit = 32;
    timeout_minimum = 5000;
    timeout_maximum = 30000;
  };
  bandwidth = record {
    incoming_bandwidth = 0;
    outgoing_bandwidth = 0;
    incoming_bandwidth_throttle_epoch = 0;
    outgoing_bandwidth_throttle_epoch = 0;
    incoming_data_total = 0;
    outgoing_data_total = 0;
  };
  queues = record {
    acknowledgements = [];
    sent_reliable_commands = [];
    sent_unreliable_commands = [];
    outgoing_reliable_commands = [];
    outgoing_unreliable_commands = [];
    dispatched_commands = [];
  };
  channels = quiet_channel ∷ [];
  mtu = 1343;
  window_size = 65536;
  reliable_data_in_transit = 0;
  outgoing_reliable_sequence_number = 0;
  needs_dispatch = false;
  incoming_unsequenced_group = 0;
  outgoing_unsequenced_group = 0;
  unsequenced_window = replicate 1024 false;
  event_data = 0;
  total_waiting_data = 0;
}

abbrev pub quiet_host : Host
quiet_host = record {
  incoming_bandwidth = 0;
  outgoing_bandwidth = 0;
  bandwidth_throttle_epoch = 0;
  mtu = 1343;
  random_seed = 1;
  recalculate_bandwidth_limits = false;
  channel_limit = 255;
  service_time = 0;
  dispatch_queue = [];
  received_address = nowhere;
  connected_peers = 1;
  bandwidth_limited_peers = 0;
  duplicate_peers = 4095;
  maximum_packet_size = 33554432;
  maximum_waiting_data = 33554432;
}

abbrev pub quiet_site : Site
quiet_site = record { host = quiet_host; peer = quiet_peer; packets = λ a. none }

abbrev pub ample : QueueAllocation
ample = record {
  packet = record { packet = true; buffer = true };
  command = some 100;
  bitmap = true;
}

-- Message `n` on channel 0: the two bytes n, n + 1.
abbrev pub counting : ℕ → List ℕ
counting n = n ∷ (n + 1) ∷ []

abbrev pub message : ℕ → Protocol
message n = record {
  header = record { command = 0x86; channel_id = 0; reliable_sequence_number = n % 65536 };
  body = send_reliable 2;
}

-- Message `n`, whole, as a channel keeps it.
abbrev pub waiting_message : ℕ → IncomingCommand
waiting_message n = record {
  address = 100 + n;
  reliable_sequence_number = n % 65536;
  unreliable_sequence_number = 0;
  command = message n;
  fragment_count = 0;
  fragments_remaining = 0;
  fragments = none;
  packet = record {
    reference_count = 1;
    flags = 1;
    content = map some (counting n);
    data_length = 2;
  };
}
