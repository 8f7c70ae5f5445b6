-- ===== src/Turner/Tests.antt =====
-- Turner/timer.c on the requests of Turner/driver.c and others, in seconds, and the theorems there.
use network_proj.Prelude.{if◌then◌else◌, ◌≡◌, refl, List, [], ◌∷◌, none, some, arith}
use network_proj.Prelude.Int.{ℤ, pos, ◌+ℤ◌, ◌-ℤ◌}
use network_proj.Turner.{
  Node, Packet, State, done, stale, crash, start_timer, check_for_node, add_node, add_new, place,
  place_behind, delete_node, update_nodes, update_head, serve_packet, round,
}
use network_proj.Turner.Due.{due_times, IsDelta}
use network_proj.Turner.Update.{first_over, less_expired, elapsed_units}
use network_proj.Turner.Round.{Requested, round-Requested}
use network_proj.Turner.Faults.{is_crash, fatal, is_crash-round}

abbrev starts_1 : Packet
starts_1 = record { return_port = 5000; seq = 1; time = pos 20; start = start_timer }

abbrev starts_2 : Packet
starts_2 = record { return_port = 5000; seq = 2; time = pos 10; start = start_timer }

abbrev starts_3 : Packet
starts_3 = record { return_port = 5000; seq = 3; time = pos 15; start = start_timer }

abbrev first : Node
first = record { time_diff = pos 10; port = 5000; seq = 2 }

abbrev second : Node
second = record { time_diff = pos 5; port = 5000; seq = 3 }

abbrev third : Node
third = record { time_diff = pos 5; port = 5000; seq = 1 }

abbrev two_nodes : List Node
two_nodes = first ∷ record third { time_diff = pos 10 } ∷ []

abbrev three_nodes : List Node
three_nodes = first ∷ second ∷ third ∷ []

abbrev at_100 : List Node → State
at_100 l = record { head = l; last_time = 100 }

three_starts : add_node starts_3 two_nodes ≡ done (1, three_nodes)
unfolding add_node add_new place_behind place check_for_node ◌-ℤ◌
three_starts = refl

-- The second timer, due after the first, crashes the process.
second_start : add_node starts_1 (first ∷ []) ≡ crash
unfolding add_node add_new place_behind check_for_node
second_start = refl

-- Ten seconds later the first node goes, and its freed memory is read.
first_expires :
    round 1 110 110 none (at_100 three_nodes)
    ≡ stale (record { head = second ∷ third ∷ []; last_time = 110 })
unfolding round serve_packet update_nodes update_head delete_node ◌-ℤ◌ ◌+ℤ◌
first_expires = refl

is_crash-round_example :
    is_crash (round 1 100 100 (some starts_1) (at_100 (first ∷ [])))
    ≡ fatal (some starts_1) (first ∷ [])
is_crash-round_example = is_crash-round 1 100 100 (some starts_1) (at_100 (first ∷ []))

abbrev now_105 : ℤ
now_105 = pos 0 +ℤ elapsed_units 1 105 105 (at_100 two_nodes)

round-Requested_example :
    (between left : List Node) × Requested (pos 0) (some starts_3) two_nodes between
    × (round 1 105 105 (some starts_3) (at_100 two_nodes) ≡ (
        if first_over now_105 (due_times (pos 0) between)
        then stale (record { head = left; last_time = 105 })
        else done (record { head = left; last_time = 105 })))
    × (due_times now_105 left ≡ less_expired now_105 (due_times (pos 0) between))
    × IsDelta left
round-Requested_example =
    round-Requested 1 105 105 (pos 0) (some starts_3) (at_100 two_nodes) (omega arith, tt)
      (unfold fatal in refl)
