-- ===== src/Timer/Names.antt =====
-- At most one timer runs for each pair of a session and a sequence number.
use network_proj.Net.{Addr, Outcome, done, exit}
use network_proj.Timer.Request.{TimerExpired}
use network_proj.Prelude.{
  subst, sym, ◌∙◌, Bool, ℕ, ◌≡◌, refl, true, false, List, [], ◌∷◌, if◌then◌else◌, arith,
}
use network_proj.Prelude.Int.{ℤ, ◌+ℤ◌}
use network_proj.Timer.{TimerState, round, Ready, failed, nothing, request, new_node}
use network_proj.Timer.Deadlines.{
  Alarm, alarm, schedule, names, is_set, unset, overdue_now, waiting, IsDelta,
}
use network_proj.Timer.Round.{
  served, alarms, round_alarms, IsForward, Rang, round-Rang, round-failed,
}

abbrev pub Distinct : List Alarm → Type 0
Distinct [] = Unit {0}
Distinct (a ∷ l) = (is_set a.session a.seq_num l ≡ false) × Distinct l

is_set-schedule :
    (s q : ℕ) (a : Alarm) (l : List Alarm)
    → is_set s q (schedule a l) ≡ (if names s q a then true else is_set s q l)
unfolding is_set schedule
is_set-schedule s q a [] = refl
is_set-schedule s q a (b ∷ l) = ground (arith, is_set-schedule s q a l)

is_set-unset :
    (s q s' q' : ℕ) (l : List Alarm) → is_set s q l ≡ false → is_set s q (unset s' q' l) ≡ false
unfolding is_set unset
is_set-unset s q s' q' [] h = refl
is_set-unset s q s' q' (a ∷ l) h = ground (arith, is_set-unset s q s' q' l)

is_set-overdue_now :
    (s q : ℕ) (now : ℤ) (l : List Alarm) → is_set s q (overdue_now now l) ≡ is_set s q l
unfolding is_set overdue_now
is_set-overdue_now s q now [] = refl
is_set-overdue_now s q now (a ∷ l) = ground (arith, is_set-overdue_now s q now l)

is_set-waiting :
    (s q : ℕ) (now : ℤ) (l : List Alarm) → is_set s q l ≡ false → is_set s q (waiting now l) ≡ false
unfolding is_set waiting
is_set-waiting s q now [] h = refl
is_set-waiting s q now (a ∷ l) h = ground (arith, is_set-waiting s q now l)

schedule-Distinct :
    (a : Alarm) (l : List Alarm)
    → is_set a.session a.seq_num l ≡ false
    → Distinct l
    → Distinct (schedule a l)
unfolding is_set schedule
schedule-Distinct a [] h d = (refl, tt)
schedule-Distinct a (b ∷ l) h d =
    ground (arith, schedule-Distinct a l, is_set-schedule b.session b.seq_num a l)

unset-Distinct : (s q : ℕ) (l : List Alarm) → Distinct l → Distinct (unset s q l)
unfolding unset
unset-Distinct s q [] d = tt
unset-Distinct s q (a ∷ l) d =
    ground (arith, unset-Distinct s q l, is_set-unset a.session a.seq_num s q l)

overdue_now-Distinct : (now : ℤ) (l : List Alarm) → Distinct l → Distinct (overdue_now now l)
unfolding overdue_now
overdue_now-Distinct now [] d = tt
overdue_now-Distinct now (a ∷ l) d =
    ground (arith, overdue_now-Distinct now l, is_set-overdue_now a.session a.seq_num now l)

waiting-Distinct : (now : ℤ) (l : List Alarm) → Distinct l → Distinct (waiting now l)
unfolding waiting
waiting-Distinct now [] d = tt
waiting-Distinct now (a ∷ l) d =
    ground (arith, waiting-Distinct now l, is_set-waiting a.session a.seq_num now l)

served-Distinct :
    (now : ℤ) (ready : Ready) (l : List Alarm) → Distinct l → Distinct (served now ready l)
unfolding served
served-Distinct now failed l d = d
served-Distinct now nothing l d = d
served-Distinct now (request r a) l d = ground (
  arith,
  schedule-Distinct (alarm (new_node r a) (now +ℤ r.seconds)) l,
  unset-Distinct r.session r.seq_num l,
)

after_done :
    (b : Bool) (due : List (Addr × TimerExpired)) (left : TimerState)
    {sent : List (Addr × TimerExpired)} {after : TimerState}
    → if◌then◌else◌ {A = Outcome (List (Addr × TimerExpired) × TimerState)} b
        (done (due, left))
        (exit 1)
      ≡ done (sent, after)
    → left ≡ after
after_done true due left e = cc
after_done false due left e = cc

kept-Distinct :
    (sends : Addr × TimerExpired → Bool) (now : ℤ) (ready : Ready) (s : TimerState)
    {sent : List (Addr × TimerExpired)} {after : TimerState}
    → Rang sends now ready s (round sends now ready s)
    → round sends now ready s ≡ done (sent, after)
    → Distinct (alarms s)
    → Distinct (alarms after)
kept-Distinct sends now ready s r e d =
    subst (λ t. Distinct (alarms t)) (after_done _ _ _ (sym r.answers ∙ e))
      (rw r.keeps (
        waiting-Distinct now (round_alarms now ready s)
          (served-Distinct now ready _ (overdue_now-Distinct now (alarms s) d))))

-- A round of the timer process that returns keeps the alarms distinct, so that no two timers run
-- for one session and sequence number, if no request asks for a negative time and no difference in
-- the list is negative.
pub round-Distinct :
    (sends : Addr × TimerExpired → Bool) (now : ℤ) (ready : Ready) (s : TimerState)
    {sent : List (Addr × TimerExpired)} {after : TimerState}
    → IsForward ready
    → IsDelta s.timer_list
    → Distinct (alarms s)
    → round sends now ready s ≡ done (sent, after)
    → Distinct (alarms after)
round-Distinct sends now failed s f i d e = cc (round-failed sends now s)
round-Distinct sends now nothing s f i d e =
    kept-Distinct sends now nothing s (round-Rang sends now nothing s (λ q. cc) f i) e d
round-Distinct sends now (request r a) s f i d e =
    kept-Distinct sends now (request r a) s (round-Rang sends now (request r a) s (λ q. cc) f i) e d
