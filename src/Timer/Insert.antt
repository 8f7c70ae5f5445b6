-- ===== src/Timer/Insert.antt =====
-- `InsertRequest` against the sorted list of alarms.
use network_proj.Prelude.{
  ◌≡◌, refl, ap, ◌∙◌, inl, inr, List, [], ◌∷◌, if◌then◌else◌, arith, Bool-cases,
}
use network_proj.Prelude.Int.{ℤ, pos, ◌+ℤ◌, ◌-ℤ◌, ◌≤ℤ◌, ltb_ℤ, int_laws, ltb_ℤ→lt, ltb_ℤ→ge}
use network_proj.Net.{Addr}
use network_proj.Timer.Request.{TimerRequest}
use network_proj.Timer.{TimerNode, find_node, insert_before, insert_request, new_node}
use network_proj.Timer.Deadlines.{
  alarm, deadlines, schedule, IsDelta, is_set, ltb_ℤ-add, is_set-deadlines,
}

abbrev by_time : (t a b : ℤ) → t +ℤ a +ℤ (b -ℤ a) ≡ t +ℤ b
by_time t a b = omega int_laws

pub deadlines-insert_before :
    (t : ℤ) (now : TimerNode) (l : List TimerNode)
    → deadlines t (insert_before now l) ≡ schedule (alarm now (t +ℤ now.remain)) (deadlines t l)
unfolding deadlines insert_before schedule
deadlines-insert_before t now [] = refl
deadlines-insert_before t now (n ∷ l) = elim (Bool-cases (ltb_ℤ now.remain n.remain)) [
  | inl first ↦
      rw (first, ltb_ℤ-add t now.remain n.remain ∙ first)
        (ap (λ s. alarm now (t +ℤ now.remain) ∷ alarm n s ∷ deadlines s l)
          (by_time t now.remain n.remain))
  | inr later ↦
      rw (later, ltb_ℤ-add t now.remain n.remain ∙ later)
        (ap (◌∷◌ (alarm n (t +ℤ n.remain))) (
          deadlines-insert_before (t +ℤ n.remain) _ l
          ∙ ap (λ s. schedule (alarm now s) (deadlines (t +ℤ n.remain) l))
              (by_time t n.remain now.remain)))
]

-- A request for a timer that is not running is put among the alarms at the time at which it is
-- due, behind those that are due at the same time, moves no other alarm and returns 0. A request
-- for a running timer returns 1 and changes nothing.
pub insert_request_refines :
    (t : ℤ) (r : TimerRequest) (a : Addr) (l : List TimerNode)
    → let (code, l') = insert_request r a l in
      (code ≡ (if is_set r.session r.seq_num (deadlines t l) then 1 else 0))
      × (deadlines t l' ≡ (
          if is_set r.session r.seq_num (deadlines t l)
          then deadlines t l
          else schedule (alarm (new_node r a) (t +ℤ r.seconds)) (deadlines t l)))
unfolding insert_request
insert_request_refines t r a l =
    ground
      (arith, is_set-deadlines t r.session r.seq_num l, deadlines-insert_before t (new_node r a) l)

pub insert_before-IsDelta :
    (now : TimerNode) (l : List TimerNode)
    → pos 0 ≤ℤ now.remain
    → IsDelta l
    → IsDelta (insert_before now l)
unfolding insert_before
insert_before-IsDelta now [] h d = (h, tt)
insert_before-IsDelta now (n ∷ l) h d = elim (Bool-cases (ltb_ℤ now.remain n.remain)) [
  | inl first ↦ rw first (h, (omega (int_laws, ltb_ℤ→lt now.remain n.remain first), d.1))
  | inr later ↦ rw later (
    d.0,
    insert_before-IsDelta (record now { remain = now.remain -ℤ n.remain }) l
        (omega (int_laws, ltb_ℤ→ge now.remain n.remain later)) d.1,
  )
]

pub insert_request-IsDelta :
    (r : TimerRequest) (a : Addr) (l : List TimerNode)
    → pos 0 ≤ℤ r.seconds
    → IsDelta l
    → IsDelta (insert_request r a l).1
unfolding insert_request
insert_request-IsDelta r a l h d = elim (Bool-cases (find_node r.session r.seq_num l)) [
  | inl running ↦ rw running d
  | inr free ↦ rw free (insert_before-IsDelta (new_node r a) l h d)
]
