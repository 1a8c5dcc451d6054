-- ===== src/Net/Sample.antt =====
-- A system that answers every call, and a network at the start of a run, for the examples.
use ece.Prelude.{ltb, if◌then◌else◌, replicate, List, [], pos, failure}
use ece.Net.{Addr, Arrival, Os, World}

-- /dev/urandom gives 50, so that no packet is lost; `bind` refuses the first two ports it is asked
-- for.
abbrev pub calm : Os
calm = record {
  urandom = λ t. 50;
  socket = λ t. pos 3;
  bind = λ t fd addr. if ltb t 2 then failure else pos 0;
  getsockname = λ t fd. (pos 0, record { family = 2; ip = 0; port = 4135 });
  sendto = λ t. pos 0;
  memory = λ t. replicate 500 0;
}

abbrev pub world_with : List Arrival → World
world_with arrivals = record {
  clock = 0;
  arrivals = arrivals;
  errno = 0;
  sent = [];
  timeouts = [];
  closed = [];
}

abbrev pub host : Addr
host = record { family = 2; ip = 16777343; port = 4135 }

abbrev pub any_port : Addr
any_port = record { family = 2; ip = 0; port = 0 }
