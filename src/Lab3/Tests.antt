-- ===== src/Lab3/Tests.antt =====
-- Lab3/tcpd.c on two bytes that are sent and received, and the theorems there.
use network_proj.Prelude.{
  ℕ, ◌≡◌, refl, Bool, true, List, [], ◌∷◌, ◌++◌, none, some, if◌then◌else◌, arith, take, drop,
  replicate, length-replicate,
}
use network_proj.Net.{done, exit}
use network_proj.Tcpd.Message.{bytes}
use network_proj.Tcpudp.{command, number, recv_name, send_name}
use network_proj.Lab3.{
  Served, overwrite, receive, read_argument, tcpd_recv, unwrap, reply, name_result, tcpd_bind,
}
use network_proj.Lab3.Unwrap.{body_of}
use network_proj.Lab3.Answer.{tcpd_recv-body_of}
use network_proj.Lab3.Loop.{System, round}
use network_proj.Lab3.Carry.{reliable, round_carries}

abbrev peer : List ℕ
peer = bytes 2 2 ++ (bytes 2 8000 ++ (bytes 4 1 ++ replicate 8 0))

abbrev header : List ℕ
header = bytes 2 512 ++ (bytes 2 8081 ++ (bytes 4 1 ++ replicate 8 0))

abbrev hello : List ℕ
hello = 104 ∷ 105 ∷ []

abbrev stack : List ℕ
stack = replicate 1016 7

abbrev all_sent : List ℕ → Bool
all_sent a = true

abbrev system : System
system = record {
  sends = all_sent;
  ret_sock = some 3;
  binds = λ fd a. true;
  connects = λ fd a. true;
  arrives = λ fd. none;
  peer_of = λ fd. some peer;
  posts = all_sent;
  stack = stack;
  tcpd_msg = [];
}

-- A datagram of one byte is answered with what the memory held before.
short_datagram :
    unwrap all_sent 2 (replicate 16 0 ++ (8 ∷ 9 ∷ 10 ∷ [])) (some (5 ∷ [])) []
    ≡ done (record { answer = 8 ∷ 9 ∷ []; to_troll = []; buf = 8 ∷ 9 ∷ [] })
unfolding unwrap reply overwrite
short_datagram = refl

bind_answers :
    tcpd_bind all_sent (λ fd a. true) (some (bytes 4 3)) (some peer) []
    ≡ done (record { answer = 0 ∷ 0 ∷ 0 ∷ 0 ∷ []; to_troll = []; buf = peer })
unfolding tcpd_bind read_argument receive name_result reply overwrite number bytes
bind_answers = refl

tcpd_recv-body_of_example :
    (buf' : List ℕ) × (tcpd_recv all_sent
        (λ fd. some (header ++ hello))
        stack
        (some (bytes 4 3))
        (some (bytes 8 5))
        []
      ≡ (if all_sent (body_of 5 stack (header ++ hello))
          then done
              (record { answer = body_of 5 stack (header ++ hello); to_troll = []; buf = buf' })
          else exit 4))
tcpd_recv-body_of_example =
    tcpd_recv-body_of all_sent (λ fd. some (header ++ hello)) stack [] (header ++ hello) 3 5
      (omega arith) (omega arith) refl

round_carries_example :
    (s r : Served) × (m : List ℕ) × (round
        (reliable system)
        (some (command send_name))
        (record { first = some (bytes 4 3); second = some (bytes 8 2); third = some hello })
        []
      ≡ done (some s))
    × (s.to_troll ≡ m ∷ [])
    × (round
          (record (reliable system) { arrives = λ fd. some (header ++ drop 16 m) })
          (some (command recv_name))
          (record { first = some (bytes 4 4); second = some (bytes 8 2); third = none })
          []
        ≡ done (some r))
    × (r.answer ≡ take 2 (hello ++ drop 18 stack))
round_carries_example =
    round_carries system system peer header hello [] [] 3 4 2 (omega arith) (omega arith) refl
      (unfold bytes in refl) (unfold bytes in refl) (length-replicate {A = ℕ} 1016 7) (omega arith)
      (omega arith)
