-- ===== src/Timer/Cancel.antt =====
-- `CancelRequest` against the sorted list of alarms.
use network_proj.Prelude.{
  ℕ, ◌≡◌, refl, sym, ap, ◌∙◌, false, inl, inr, List, [], ◌∷◌, if◌then◌else◌, arith, Bool-cases,
}
use network_proj.Prelude.Int.{ℤ, ◌+ℤ◌, int_laws}
use network_proj.Timer.Request.{TimerRequest}
use network_proj.Timer.{TimerNode, matches, find_node, take_over, delete_node, cancel_request}
use network_proj.Timer.Deadlines.{Alarm, alarm, deadlines, IsDelta, is_set, unset, is_set-deadlines}

abbrev taken_over : (t a b : ℤ) → t +ℤ (b +ℤ a) ≡ t +ℤ a +ℤ b
taken_over t a b = omega int_laws

deadlines-take_over :
    (t : ℤ) (n : TimerNode) (l : List TimerNode)
    → deadlines t (take_over n l) ≡ deadlines (t +ℤ n.remain) l
unfolding deadlines
deadlines-take_over t n [] = refl
deadlines-take_over t n (next ∷ l) =
    ap (λ s. alarm next s ∷ deadlines s l) (taken_over t n.remain next.remain)

deadlines-delete_node :
    (t : ℤ) (session seq_num : ℕ) (l : List TimerNode)
    → deadlines t (delete_node session seq_num l) ≡ unset session seq_num (deadlines t l)
unfolding deadlines delete_node unset
deadlines-delete_node t session seq_num [] = refl
deadlines-delete_node t session seq_num (n ∷ l) = elim (Bool-cases (matches session seq_num n)) [
  | inl found ↦ rw found (deadlines-take_over t n l)
  | inr other ↦
      rw other (
        ap (◌∷◌ (alarm n (t +ℤ n.remain)))
          (deadlines-delete_node (t +ℤ n.remain) session seq_num l))
]

unset-absent :
    (session seq_num : ℕ) (l : List Alarm)
    → is_set session seq_num l ≡ false
    → unset session seq_num l ≡ l
unfolding is_set unset
unset-absent session seq_num [] h = refl
unset-absent session seq_num (a ∷ l) h = ground (arith, unset-absent session seq_num l)

-- Cancelling a running timer removes its alarm, leaves every other alarm due when it was, and
-- returns 0. Where no such timer runs the request returns 1 and changes nothing.
pub cancel_request_refines :
    (t : ℤ) (r : TimerRequest) (l : List TimerNode)
    → let (code, l') = cancel_request r l in
      (code ≡ (if is_set r.session r.seq_num (deadlines t l) then 0 else 1))
      × (deadlines t l' ≡ unset r.session r.seq_num (deadlines t l))
unfolding cancel_request
cancel_request_refines t r l = elim (Bool-cases (find_node r.session r.seq_num l)) [
  | inl running ↦
      rw (running, is_set-deadlines t r.session r.seq_num l ∙ running)
        (refl, deadlines-delete_node t r.session r.seq_num l)
  | inr absent ↦
      let free = is_set-deadlines t r.session r.seq_num l ∙ absent in
      rw (absent, free) (refl, sym (unset-absent r.session r.seq_num (deadlines t l) free))
]

pub delete_node-IsDelta :
    (session seq_num : ℕ) (l : List TimerNode) → IsDelta l → IsDelta (delete_node session seq_num l)
unfolding delete_node
delete_node-IsDelta session seq_num [] d = tt
delete_node-IsDelta session seq_num (n ∷ []) d = ground arith
delete_node-IsDelta session seq_num (n ∷ next ∷ l) d =
    elim (Bool-cases (matches session seq_num n)) [
      | inl found ↦ rw found (omega int_laws, d.1.1)
      | inr other ↦ rw other (d.0, delete_node-IsDelta session seq_num (next ∷ l) d.1)
    ]

pub cancel_request-IsDelta :
    (r : TimerRequest) (l : List TimerNode) → IsDelta l → IsDelta (cancel_request r l).1
unfolding cancel_request
cancel_request-IsDelta r l d = elim (Bool-cases (find_node r.session r.seq_num l)) [
  | inl running ↦ rw running (delete_node-IsDelta r.session r.seq_num l d)
  | inr absent ↦ rw absent d
]
