-- ===== src/World.antt =====
-- A host with its peers, `host -> peers [0 .. host -> peerCount)`, and one of them with its host.
use toxsh.Prelude.{ℕ, List, Option, none, some, get_elem?, set}
use toxsh.Memory.{Store}
use toxsh.State.{Host, Peer, Site}

pub record World : Type 0 where
  pub host : Host
  pub peers : List Peer
  pub packets : Store

-- A peer with what it shares with the others.
abbrev pub site_of : World → Peer → Site
site_of w p = record { host = w.host; peer = p; packets = w.packets }

-- The host after its peer at index `i` went through a function on its site.
abbrev pub put_site : ℕ → Site → World → World
put_site i s w = record { host = s.host; peers = set w.peers i s.peer; packets = s.packets }

-- The site of the peer at an index, if there is one.
abbrev pub site_at : World → ℕ → Option Site
site_at w i = elim (get_elem? w.peers i) [ none ↦ none | some p ↦ some (site_of w p) ]
