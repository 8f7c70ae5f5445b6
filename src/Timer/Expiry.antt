-- ===== src/Timer/Expiry.antt =====
-- `UpdateTimerList` and `SendCallbacks` against the sorted list of alarms.
use network_proj.Prelude.{◌≡◌, refl, sym, ap, ◌∙◌, true, inl, inr, List, [], ◌∷◌, Bool-cases}
use network_proj.Prelude.Int.{ℤ, pos, ◌+ℤ◌, ◌-ℤ◌, ltb_ℤ, int_laws, ltb_ℤ→lt, lt→ltb_ℤ}
use network_proj.Timer.{TimerNode, transmit, update_timer_list}
use network_proj.Timer.Deadlines.{alarm, deadlines, overdue_now, IsDelta, ltb_ℤ-add}

-- Alarms behind one that is due in the future are due in the future.
overdue_now-later :
    (now t : ℤ) (l : List TimerNode)
    → ltb_ℤ now t ≡ true
    → IsDelta l
    → overdue_now now (deadlines t l) ≡ deadlines t l
unfolding overdue_now deadlines
overdue_now-later now t [] h d = refl
overdue_now-later now t (n ∷ l) h d =
    let later : ltb_ℤ now (t +ℤ n.remain) ≡ true =
      lt→ltb_ℤ now (t +ℤ n.remain) (omega (int_laws, ltb_ℤ→lt now t h)) in
    rw later
      (ap (◌∷◌ (alarm n (t +ℤ n.remain))) (overdue_now-later now (t +ℤ n.remain) l later d.1))

pub due_later : (now rest : ℤ) → ltb_ℤ now (now +ℤ rest) ≡ ltb_ℤ (pos 0) rest
due_later now rest = ap (λ t. ltb_ℤ t (now +ℤ rest)) from_now ∙ ltb_ℤ-add now (pos 0) rest
  where
    from_now : now ≡ now +ℤ pos 0
    from_now = omega int_laws

pub deadlines_at_zero :
    (now : ℤ) (n : TimerNode) (l : List TimerNode)
    → deadlines now (record n { remain = pos 0 } ∷ l) ≡ alarm n now ∷ deadlines now l
unfolding deadlines
deadlines_at_zero now n l = ap (λ t. alarm n t ∷ deadlines t l) at_now
  where
    at_now : now +ℤ pos 0 ≡ now
    at_now = omega int_laws

deadlines-transmit :
    (now rest : ℤ) (n : TimerNode) (l : List TimerNode)
    → IsDelta l
    → deadlines now (transmit rest n l)
      ≡ overdue_now now (alarm n (now +ℤ rest) ∷ deadlines (now +ℤ rest) l)
unfolding overdue_now deadlines transmit
deadlines-transmit now rest n [] d = elim (Bool-cases (ltb_ℤ (pos 0) rest)) [
  | inl running ↦ rw (running, due_later now rest ∙ running)
  | inr over ↦ rw (over, due_later now rest ∙ over) (deadlines_at_zero now n [])
]
deadlines-transmit now rest n (next ∷ l) d = elim (Bool-cases (ltb_ℤ (pos 0) rest)) [
  | inl running ↦
      let later = due_later now rest ∙ running in
      rw (running, later)
        (ap (◌∷◌ (alarm n (now +ℤ rest)))
          (sym (overdue_now-later now (now +ℤ rest) (next ∷ l) later d)))
  | inr over ↦
      rw (over, due_later now rest ∙ over)
        (deadlines_at_zero now n (transmit (next.remain +ℤ rest) next l)
          ∙ ap (◌∷◌ (alarm n now)) (
              deadlines-transmit now (next.remain +ℤ rest) next l d.1
              ∙ ap (λ t. overdue_now now (alarm next t ∷ deadlines t l)) carried))
]
  where
    carried : now +ℤ (next.remain +ℤ rest) ≡ now +ℤ rest +ℤ next.remain
    carried = omega int_laws

-- After `UpdateTimerList` every alarm is due when it was, except that those whose time has come are
-- due now, if no difference in the list is negative. (The list counted from the last call,
-- `elapsed` before now.)
pub update_timer_list_refines :
    (now elapsed : ℤ) (l : List TimerNode)
    → IsDelta l
    → deadlines now (update_timer_list elapsed l) ≡ overdue_now now (deadlines (now -ℤ elapsed) l)
unfolding update_timer_list
update_timer_list_refines now elapsed [] d = unfold overdue_now deadlines in refl
update_timer_list_refines now elapsed (n ∷ l) d =
    deadlines-transmit now (n.remain -ℤ elapsed) n l d.1
    ∙ unfold deadlines in ap (λ t. overdue_now now (alarm n t ∷ deadlines t l)) since
  where
    since : now +ℤ (n.remain -ℤ elapsed) ≡ now -ℤ elapsed +ℤ n.remain
    since = omega int_laws

transmit-IsDelta :
    (rest : ℤ) (n : TimerNode) (l : List TimerNode) → IsDelta l → IsDelta (transmit rest n l)
unfolding transmit
transmit-IsDelta rest n [] d = elim (Bool-cases (ltb_ℤ (pos 0) rest)) [
  | inl running ↦ rw running (omega (int_laws, ltb_ℤ→lt (pos 0) rest running), tt)
  | inr over ↦ rw over (omega int_laws, tt)
]
transmit-IsDelta rest n (next ∷ l) d = elim (Bool-cases (ltb_ℤ (pos 0) rest)) [
  | inl running ↦ rw running (omega (int_laws, ltb_ℤ→lt (pos 0) rest running), d)
  | inr over ↦ rw over (omega int_laws, transmit-IsDelta (next.remain +ℤ rest) next l d.1)
]

pub update_timer_list-IsDelta :
    (elapsed : ℤ) (l : List TimerNode) → IsDelta l → IsDelta (update_timer_list elapsed l)
unfolding update_timer_list
update_timer_list-IsDelta elapsed [] d = tt
update_timer_list-IsDelta elapsed (n ∷ l) d = transmit-IsDelta (n.remain -ℤ elapsed) n l d.1
