-- ===== src/Lab3/Loop.antt =====
-- The loop of `main` of Lab3/tcpd.c.
use network_proj.Prelude.{ℕ, ◌≡◌, refl, List, Option, none, some, Bool, if◌then◌else◌, take}
use network_proj.Net.{Outcome, done, exit, ◌>>=◌}
use network_proj.Ftp.{c_string}
use network_proj.Tcpudp.{
  command, same_string, socket_name, bind_name, recv_name, connect_name, send_name,
}
use network_proj.Lab3.{
  Served, overwrite, tcpd_socket, tcpd_bind, tcpd_recv, tcpd_connect, tcpd_send,
}

-- What the system calls do in a round, and what the local variables hold at first.
pub record System : Type 0 where
  pub sends : List ℕ → Bool
  pub ret_sock : Option ℕ
  pub binds : ℕ → List ℕ → Bool
  pub connects : ℕ → List ℕ → Bool
  pub arrives : ℕ → Option (List ℕ)
  pub peer_of : ℕ → Option (List ℕ)
  pub posts : List ℕ → Bool
  pub stack : List ℕ
  pub tcpd_msg : List ℕ

-- The datagrams that the front process sends behind the name of a call.
pub record Arguments : Type 0 where
  pub first : Option (List ℕ)
  pub second : Option (List ℕ)
  pub third : Option (List ℕ)

abbrev pub served : Outcome Served → Outcome (Option Served)
served o = o >>= (λ s. done (some s))

-- `none`: a message that is no call.
unfoldable pub serve_front : System → List ℕ → Arguments → List ℕ → Outcome (Option Served)
serve_front o name a buf =
    if same_string name socket_name
    then served (tcpd_socket o.sends o.ret_sock buf)
    else if same_string name bind_name
    then served (tcpd_bind o.sends o.binds a.first a.second buf)
    else if same_string name recv_name
    then served (tcpd_recv o.sends o.arrives o.stack a.first a.second buf)
    else if same_string name connect_name
    then served (tcpd_connect o.sends o.connects a.first a.second buf)
    else if same_string name send_name
    then served (tcpd_send o.sends o.posts o.peer_of o.stack a.first a.second a.third buf)
    else done none

unfoldable pub round : System → Option (List ℕ) → Arguments → List ℕ → Outcome (Option Served)
round o none a buf = exit 4
round o (some message) a buf =
    serve_front o (c_string (overwrite (take 8 message) o.tcpd_msg)) a buf

pub round_recv :
    (o : System) (a : Arguments) (buf : List ℕ)
    → round o (some (command recv_name)) a buf
      ≡ served (tcpd_recv o.sends o.arrives o.stack a.first a.second buf)
unfolding round serve_front command same_string c_string overwrite
round_recv o a buf = refl

pub round_send :
    (o : System) (a : Arguments) (buf : List ℕ)
    → round o (some (command send_name)) a buf
      ≡ served (tcpd_send o.sends o.posts o.peer_of o.stack a.first a.second a.third buf)
unfolding round serve_front command same_string c_string overwrite
round_send o a buf = refl
