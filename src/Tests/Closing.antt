-- ===== src/Tests/Closing.antt =====
-- `openConnection` on an object.
use aprs_wx.Prelude.{Ensures, List, [], codes, none, pos, some, ◌∷◌, ◌≡◌, map}
use aprs_wx.Socket.Opening.{Login, open_connection}
use aprs_wx.Socket.Opening.Object.{Connecting, open_object}
use aprs_wx.Socket.Opening.Object.Closing.{Closes, open_object-Closes}
use aprs_wx.Socket.Opening.Object.Forgetting.{attempt_of, forget}
use aprs_wx.Socket.Peers.{Search}
use aprs_wx.Tests.Serving.{arrivals}

abbrev given : Search
given = record { sock_fd = pos 5; peer = none; attempts = 1; closed = [] }

abbrev given_next : Search
given_next = record { sock_fd = pos 5; peer = none; attempts = 2; closed = pos 4 ∷ [] }

-- A server that is rejected, and one that is not.
abbrev two_servers : List Connecting
two_servers =
    record {
      search = some given;
      no_delay = pos 0;
      events = arrivals (codes "# javAPRSSrvr 4.2.0b09\r\n");
    }
    ∷ record {
      search = some given_next;
      no_delay = pos 0;
      events = arrivals (codes "# aprsc 2.1.10\r\n# logresp N0 verified\r\n");
    }
    ∷ []

abbrev anyone : Login
anyone = record { call_sign = codes "VE3YSH"; pass_code = codes "1"; filter = codes "r/45/75/50" }

open_object-Closes_example :
    (forget (open_object anyone two_servers) ≡ open_connection anyone (map attempt_of two_servers))
    × Ensures (Closes two_servers) (open_object anyone two_servers)
open_object-Closes_example = open_object-Closes anyone two_servers
