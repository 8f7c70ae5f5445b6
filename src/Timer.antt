-- ===== src/Timer.antt =====
-- Proj1/timer.c: the process that keeps the retransmission timers. The list holds for each timer the
-- time left after its predecessor has run out. `double` seconds are whole numbers of one unit, small
-- enough for all values in play; the list is only added to, subtracted from and compared.
pub mod Request
pub mod Deadlines
pub mod Insert
pub mod Cancel
pub mod Expiry
pub mod Callbacks
pub mod Round
pub mod Sleep
pub mod Names
pub mod Driver
mod Tests
use network_proj.Prelude.{
  ℕ, ◌*◌, ◌/◌, ◌%◌, List, [], ◌∷◌, Option, none, some, Bool, true, false, ◌&&◌, ◌==◌, if◌then◌else◌,
}
use network_proj.Prelude.Int.{ℤ, pos, negsuc, ◌+ℤ◌, ◌-ℤ◌, ltb_ℤ}
use network_proj.Net.{Addr, Outcome, done, exit, ◌>>=◌}
use Request.{TimerRequest, TimerExpired, timer_request_start, timer_request_cancel}

-- `struct TimerNodeStruct`
pub record TimerNode : Type 0 where
  pub session : ℕ
  pub seq_num : ℕ
  pub remain : ℤ
  pub request_addr : Addr

-- The test of both search loops: `l->Session==Session && l->SeqNum==SeqNum`.
abbrev pub matches : ℕ → ℕ → TimerNode → Bool
matches session seq_num n = (n.session == session) && (n.seq_num == seq_num)

unfoldable pub find_node : ℕ → ℕ → List TimerNode → Bool
find_node session seq_num [] = false
find_node session seq_num (n ∷ l) =
    if matches session seq_num n then true else find_node session seq_num l

-- The second loop of `InsertRequest`, the insertion and the correction of the successor.
pub insert_before : TimerNode → List TimerNode → List TimerNode
insert_before now [] = now ∷ []
insert_before now (n ∷ l) =
    if ltb_ℤ now.remain n.remain
    then now ∷ record n { remain = n.remain -ℤ now.remain } ∷ l
    else n ∷ insert_before (record now { remain = now.remain -ℤ n.remain }) l

-- The node that `InsertRequest` builds from a request.
abbrev pub new_node : TimerRequest → Addr → TimerNode
new_node r a = record {
  session = r.session;
  seq_num = r.seq_num;
  remain = r.seconds;
  request_addr = a;
}

pub insert_request : TimerRequest → Addr → List TimerNode → ℕ × List TimerNode
insert_request r a l =
    if find_node r.session r.seq_num l then (1, l) else (0, insert_before (new_node r a) l)

-- The successor of a deleted node takes over its time.
abbrev pub take_over : TimerNode → List TimerNode → List TimerNode
take_over n [] = []
take_over n (next ∷ l) = record next { remain = next.remain +ℤ n.remain } ∷ l

pub delete_node : ℕ → ℕ → List TimerNode → List TimerNode
delete_node session seq_num [] = []
delete_node session seq_num (n ∷ l) =
    if matches session seq_num n then take_over n l else n ∷ delete_node session seq_num l

pub cancel_request : TimerRequest → List TimerNode → ℕ × List TimerNode
cancel_request r l =
    if find_node r.session r.seq_num l then (0, delete_node r.session r.seq_num l) else (1, l)

-- The loop of `UpdateTimerList` at a node whose time left has become `rest`: a node that has run
-- out hands what it is late by to its successor and is set to 0.
pub transmit : ℤ → TimerNode → List TimerNode → List TimerNode
transmit rest n [] =
    if ltb_ℤ (pos 0) rest then record n { remain = rest } ∷ [] else record n { remain = pos 0 } ∷ []
transmit rest n (next ∷ l) =
    if ltb_ℤ (pos 0) rest
    then record n { remain = rest } ∷ next ∷ l
    else record n { remain = pos 0 } ∷ transmit (next.remain +ℤ rest) next l

pub update_timer_list : ℤ → List TimerNode → List TimerNode
update_timer_list elapsed [] = []
update_timer_list elapsed (n ∷ l) = transmit (n.remain -ℤ elapsed) n l

-- The message of `SendCallbacks`, with the address that it goes to.
abbrev pub expired : TimerNode → Addr × TimerExpired
expired n = (n.request_addr, record { session = n.session; seq_num = n.seq_num })

-- `SendCallbacks`. `sends` says which calls of `sendto` succeed; the first that fails ends the
-- process. The result is what was sent, and the list that is left.
module _ (sends : Addr × TimerExpired → Bool) where
  pub send_callbacks : List TimerNode → Outcome (List (Addr × TimerExpired) × List TimerNode)
  send_callbacks [] = done ([], [])
  send_callbacks (n ∷ l) =
      if ltb_ℤ (pos 0) n.remain
      then done ([], n ∷ l)
      else if sends (expired n)
      then send_callbacks l >>= (λ (sent, left). done (expired n ∷ sent, left))
      else exit 1

-- `LastSystemTime` and `TimerList`
pub record TimerState : Type 0 where
  pub last_system_time : ℤ
  pub timer_list : List TimerNode

-- What `select` and `recvfrom` bring: an error, a timeout, or a request and who sent it.
pub data Ready : Type 0 where
  failed nothing : Ready
  request : TimerRequest → Addr → Ready

-- The `switch` of the main loop; the codes of the two operations are dropped there.
pub serve : Ready → List TimerNode → List TimerNode
serve failed l = l
serve nothing l = l
serve (request r a) l =
    if r.type == timer_request_start
    then (insert_request r a l).1
    else if r.type == timer_request_cancel
    then (cancel_request r l).1
    else l

-- One round of the main loop, `select` having returned at time `now`: what was sent, and the state.
module _ (sends : Addr × TimerExpired → Bool) (now : ℤ) where
  pub serve_and_call : Ready → List TimerNode → Outcome (List (Addr × TimerExpired) × TimerState)
  serve_and_call failed l = exit 1
  serve_and_call ready l = do
    (sent, left) ← send_callbacks sends (serve ready l)
    done (sent, record { last_system_time = now; timer_list = left })

  pub round : Ready → TimerState → Outcome (List (Addr × TimerExpired) × TimerState)
  round ready s = serve_and_call ready (update_timer_list (now -ℤ s.last_system_time) s.timer_list)

-- How long `select` may sleep, in seconds and microseconds, with `micro` units to a microsecond.
-- `none`: the cast of a negative `double` to `unsigned` is undefined.
pub sleep_time : ℕ → List TimerNode → Option (ℕ × ℕ)
sleep_time micro [] = some (1000, 0)
sleep_time micro (n ∷ l) = elim n.remain [
  | pos r ↦ some (r / (micro * 1000000), r % (micro * 1000000) / micro)
  | negsuc r ↦ none
]
