-- ===== src/Tests/Hosts.antt =====
-- Hosts that connect.
use toxsh.Prelude.{◌≡◌, true, arith}
use toxsh.State.{Host}
use toxsh.Protocol.Handshake.{is_verified, is_channel_count}
use toxsh.Host.Agreement.{Agreed, asked_for, answered, answering, ready, begun, handshake-Agreed}
use toxsh.Tests.Fixtures.{quiet_host, quiet_peer, nowhere}

-- Twelve channels are asked for, and the other host allows ten.
abbrev frugal : Host
frugal = record quiet_host { channel_limit = 10 }

handshake-Agreed_example :
    (is_channel_count
        (asked_for quiet_host frugal nowhere 12 99 5 quiet_peer quiet_peer).channel_count
      ≡ true)
    × (is_verified
          (answered quiet_host frugal nowhere 12 99 5 quiet_peer quiet_peer)
          (begun quiet_host frugal nowhere 12 99 5 quiet_peer quiet_peer)
        ≡ true)
    × Agreed
        (ready quiet_host frugal nowhere 12 99 5 quiet_peer quiet_peer)
        (answering quiet_host frugal nowhere 12 99 5 quiet_peer quiet_peer)
handshake-Agreed_example =
    handshake-Agreed quiet_host frugal nowhere 12 99 5 quiet_peer quiet_peer (omega arith)
      (omega arith) (omega arith)
