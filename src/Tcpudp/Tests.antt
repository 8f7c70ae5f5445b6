-- ===== src/Tcpudp/Tests.antt =====
-- The calls CONNECT and SEND.
use network_proj.Prelude.{◌≡◌, [], some, none, true, arith}
use network_proj.Net.{Addr}
use network_proj.Tcpd.Message.{Message}
use network_proj.Tcpd.Loop.{connect}
use network_proj.Tcpudp.{read_call}
use network_proj.Tcpudp.Protocol.{for_connect, datagrams, read_call-datagrams}

abbrev server : Addr
server = record { family = 2; port = 8000; addr = 1 }

abbrev fresh : Message
fresh = record {
  header = server;
  check_sum = 0;
  session = 0;
  seq_num = 0;
  padding = [];
  len = 0;
  body = [];
}

read_call-datagrams_example :
    read_call none true 5 fresh (datagrams (for_connect 3 server [])) ≡ connect (some (3, server)) 5
read_call-datagrams_example =
    read_call-datagrams none true 5 fresh (for_connect 3 server [])
      (omega arith, (omega arith, omega arith, omega arith))
