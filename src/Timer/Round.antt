-- ===== src/Timer/Round.antt =====
-- The main loop of timer.c against the sorted list of alarms.
use network_proj.Prelude.{
  ◌≡◌, ◌≢◌, refl, ap, ◌∙◌, Bool, inl, inr, List, map, ◌==◌, if◌then◌else◌, arith, Bool-cases,
}
use network_proj.Prelude.Int.{ℤ, pos, ◌+ℤ◌, ◌-ℤ◌, ◌≤ℤ◌, int_laws}
use network_proj.Net.{Addr, Outcome, done, exit, ◌>>=◌}
use network_proj.Timer.Request.{TimerExpired, timer_request_start, timer_request_cancel}
use network_proj.Timer.{
  TimerNode, TimerState, Ready, failed, nothing, request, serve, serve_and_call, round, new_node,
  update_timer_list, send_callbacks,
}
use network_proj.Timer.Deadlines.{
  Alarm, alarm, deadlines, schedule, is_set, unset, overdue_now, rung, waiting, IsDelta,
}
use network_proj.Timer.Insert.{insert_request_refines, insert_request-IsDelta}
use network_proj.Timer.Cancel.{cancel_request_refines, cancel_request-IsDelta}
use network_proj.Timer.Expiry.{update_timer_list_refines, update_timer_list-IsDelta}
use network_proj.Timer.Callbacks.{message, every, HeadRuns, Called, send_callbacks-Called}

-- The same request on the alarms.
unfoldable pub served : ℤ → Ready → List Alarm → List Alarm
served now failed l = l
served now nothing l = l
served now (request r a) l =
    if r.type == timer_request_start
    then if is_set r.session r.seq_num l
      then l
      else schedule (alarm (new_node r a) (now +ℤ r.seconds)) l
    else if r.type == timer_request_cancel
    then unset r.session r.seq_num l
    else l

-- The alarms that a round starts from, and those that a request leaves.
abbrev pub alarms : TimerState → List Alarm
alarms s = deadlines s.last_system_time s.timer_list

abbrev pub round_alarms : ℤ → Ready → TimerState → List Alarm
round_alarms now ready s = served now ready (overdue_now now (alarms s))

-- A request does not ask for a negative time.
abbrev pub IsForward : Ready → Type 0
IsForward failed = Unit {0}
IsForward nothing = Unit {0}
IsForward (request r a) = pos 0 ≤ℤ r.seconds

serve_refines :
    (now : ℤ) (ready : Ready) (l : List TimerNode)
    → deadlines now (serve ready l) ≡ served now ready (deadlines now l)
unfolding serve served
serve_refines now failed l = refl
serve_refines now nothing l = refl
serve_refines now (request r a) l =
    ground (arith, insert_request_refines now r a l, cancel_request_refines now r l)

serve-IsDelta :
    (ready : Ready) (l : List TimerNode) → IsForward ready → IsDelta l → IsDelta (serve ready l)
unfolding serve
serve-IsDelta failed l h d = d
serve-IsDelta nothing l h d = d
serve-IsDelta (request r a) l h d = elim (Bool-cases (r.type == timer_request_start)) [
  | inl starts ↦ rw starts (insert_request-IsDelta r a l h d)
  | inr other ↦ elim (Bool-cases (r.type == timer_request_cancel)) [
    | inl cancels ↦ rw (other, cancels) (cancel_request-IsDelta r l d)
    | inr unknown ↦ rw (other, unknown) d
  ]
]

-- What a round does that does not end in an error of `select`.
pub record Rang (sends : Addr × TimerExpired → Bool) (now : ℤ) (ready : Ready) (s : TimerState)
    (result : Outcome (List (Addr × TimerExpired) × TimerState)) : Type 0 where
  pub after : TimerState
  pub answers : result ≡ (
      if every sends (map message (rung now (round_alarms now ready s)))
      then done (map message (rung now (round_alarms now ready s)), after)
      else exit 1)
  pub keeps : alarms after ≡ waiting now (round_alarms now ready s)
  pub clock : after.last_system_time ≡ now
  pub deltas : IsDelta after.timer_list
  pub head_runs : HeadRuns after.timer_list

Called-Rang :
    (sends : Addr × TimerExpired → Bool) (now : ℤ) (ready : Ready) (s : TimerState)
    (l : List TimerNode)
    → deadlines now (serve ready l) ≡ round_alarms now ready s
    → Called sends now (serve ready l) (send_callbacks sends (serve ready l))
    → Rang sends now ready s (do
      (sent, left) ← send_callbacks sends (serve ready l)
      done (sent, record { last_system_time = now; timer_list = left }))
Called-Rang sends now ready s l same c = record {
  after = record { last_system_time = now; timer_list = c.left };
  answers = rw (← same, c.answers) (ground arith);
  keeps = c.keeps ∙ ap (waiting now) same;
  clock = refl;
  deltas = c.deltas;
  head_runs = c.head_runs;
}

counted :
    (now : ℤ) (s : TimerState)
    → IsDelta s.timer_list
    → deadlines now (update_timer_list (now -ℤ s.last_system_time) s.timer_list)
      ≡ overdue_now now (alarms s)
counted now s d =
    update_timer_list_refines now (now -ℤ s.last_system_time) s.timer_list d
    ∙ ap (λ t. overdue_now now (deadlines t s.timer_list)) since
  where
    since : now -ℤ (now -ℤ s.last_system_time) ≡ s.last_system_time
    since = omega int_laws

served-Rang :
    (sends : Addr × TimerExpired → Bool) (now : ℤ) (ready : Ready) (s : TimerState)
    (l : List TimerNode)
    → IsForward ready
    → deadlines now l ≡ overdue_now now (alarms s)
    → IsDelta l
    → Rang sends now ready s (do
      (sent, left) ← send_callbacks sends (serve ready l)
      done (sent, record { last_system_time = now; timer_list = left }))
served-Rang sends now ready s l forward same d =
    Called-Rang sends now ready s l (serve_refines now ready l ∙ ap (served now ready) same)
      (send_callbacks-Called sends now (serve ready l) (serve-IsDelta ready l forward d))

-- A round that reads no error from `select` behaves as the sorted list of alarms does: overdue
-- alarms count as due now; a request sets an alarm at its time from now unless one of that name is
-- set, or takes one back; then exactly the alarms whose time has come ring, in order (if a message
-- cannot be sent the process ends with code 1), and the others stay with their times. No request
-- asks for a negative time, and no difference in the list is negative, and none becomes so; then
-- the first timer of the list has time left.
pub round-Rang :
    (sends : Addr × TimerExpired → Bool) (now : ℤ) (ready : Ready) (s : TimerState)
    → ready ≢ failed
    → IsForward ready
    → IsDelta s.timer_list
    → Rang sends now ready s (round sends now ready s)
unfolding round serve_and_call
round-Rang sends now failed s ok forward d = absurd (ok refl)
round-Rang sends now nothing s ok forward d =
    served-Rang sends now nothing s (update_timer_list _ s.timer_list) forward (counted now s d)
      (update_timer_list-IsDelta _ s.timer_list d)
round-Rang sends now (request r a) s ok forward d =
    served-Rang sends now (request r a) s (update_timer_list _ s.timer_list) forward
      (counted now s d) (update_timer_list-IsDelta _ s.timer_list d)

-- An error of `select` ends the process with code 1.
pub round-failed :
    (sends : Addr × TimerExpired → Bool) (now : ℤ) (s : TimerState)
    → round sends now failed s ≡ exit 1
unfolding round serve_and_call
round-failed sends now s = refl
