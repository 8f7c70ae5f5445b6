-- ===== src/Turner/Round.antt =====
-- A round of the loop of Turner/timer.c against the times at which the nodes are due.
use network_proj.Prelude.{
  ℕ, ◌≡◌, refl, Bool, true, false, inl, inr, List, [], ◌∷◌, Option, none, some, ◌==◌, if◌then◌else◌,
  arith, Bool-cases,
}
use network_proj.Prelude.Int.{ℤ, ◌+ℤ◌}
use network_proj.Turner.{
  Node, Packet, State, done, stale, start_timer, end_timer, check_for_node, made_node, add_node,
  serve_packet, round,
}
use network_proj.Turner.Due.{due, due_times, without, IsDelta, Placed}
use network_proj.Turner.Add.{AloneBefore, add_node-Added}
use network_proj.Turner.Delete.{AloneOther, delete_node-Deleted}
use network_proj.Turner.Update.{first_over, less_expired, elapsed_units, update_nodes-Passed}
use network_proj.Turner.Faults.{fatal}

-- What a request makes of the nodes. A node whose number is in the list already is not put there.
abbrev pub Started : ℤ → Packet → Bool → List Node → List Node → Type 0
Started t p true old new = due_times t new ≡ due_times t old
Started t p false old new =
    Placed (due (made_node p) (t +ℤ p.time)) (due_times t old) (due_times t new)

abbrev pub Ended : ℤ → Packet → Bool → List Node → List Node → Type 0
Ended t p true old new = due_times t new ≡ without p.seq (due_times t old)
Ended t p false old new = due_times t new ≡ due_times t old

abbrev pub Requested : ℤ → Option Packet → List Node → List Node → Type 0
Requested t none old new = due_times t new ≡ due_times t old
Requested t (some p) old new =
    if p.start == start_timer
    then Started t p (check_for_node old p.seq) old new
    else Ended t p (p.start == end_timer) old new

free_of : (p : Packet) (n : Node) → check_for_node (n ∷ []) p.seq ≡ false → (n.seq == p.seq) ≡ false
unfolding check_for_node
free_of p n h = ground arith

start_has_place :
    (p : Packet) (l : List Node)
    → fatal (some p) l ≡ false
    → (p.start == start_timer) ≡ true
    → check_for_node l p.seq ≡ false
    → ¬ AloneBefore p.time l
unfolding fatal
start_has_place p [] f s free a = a
start_has_place p (n ∷ []) f s free a = let other = free_of p n free in ground arith
start_has_place p (n ∷ m ∷ l) f s free a = a

end_has_next :
    (p : Packet) (l : List Node)
    → fatal (some p) l ≡ false
    → (p.start == start_timer) ≡ false
    → (p.start == end_timer) ≡ true
    → ¬ AloneOther p.seq l
unfolding fatal
end_has_next p [] f s e a = a
end_has_next p (n ∷ []) f s e a = ground arith
end_has_next p (n ∷ m ∷ l) f s e a = a

module _ (second earlier now : ℕ) where
  serve_packet-Requested :
      (t : ℤ) (received : Option Packet) (l : List Node)
      → IsDelta l
      → fatal received l ≡ false
      → (l' : List Node) × (serve_packet second earlier now received l ≡ done l')
        × Requested t received l l'
        × IsDelta l'
  unfolding serve_packet
  serve_packet-Requested t none l d f = (l, refl, refl, d)
  serve_packet-Requested t (some p) l d f = elim (Bool-cases (p.start == start_timer)) [
    | inl starts ↦ elim (Bool-cases (check_for_node l p.seq)) [
      | inl there ↦ (l, unfold add_node in rw (starts, there) refl, rw (starts, there) refl, d)
      | inr free ↦
          let (l', adds, added) = add_node-Added t p l d free (start_has_place p l f starts free) in
          (l', rw (starts, adds) refl, rw (starts, free) added.placed, added.deltas)
    ]
    | inr other ↦ elim (Bool-cases (p.start == end_timer)) [
      | inl ends ↦
          let (code, l', deletes, deleted, deltas) =
            delete_node-Deleted t p.seq l d (end_has_next p l f other ends) in
          (l', rw (other, ends, deletes) refl, rw (other, ends) deleted.keeps, deltas)
      | inr neither ↦ (l, rw (other, neither) refl, rw (other, neither) refl, d)
    ]
  ]

  -- Unless it follows a NULL pointer, a round of the loop does what the request says: a node with a
  -- number that is not in the list is put at its time, between those that are due no later and
  -- those that are due no earlier, or the node of the number goes, and no other is moved. Then the
  -- first node goes if its time has come, and the others are due when they were; in that case a
  -- freed node is read. No difference but the first is negative, at the start and at the end.
  pub round-Requested :
      (t : ℤ) (received : Option Packet) (s : State)
      → IsDelta s.head
      → fatal received s.head ≡ false
      → (between left : List Node) × Requested t received s.head between
        × (round second earlier now received s ≡ (
            if first_over (t +ℤ elapsed_units second earlier now s) (due_times t between)
            then stale (record { head = left; last_time = now })
            else done (record { head = left; last_time = now })))
        × (due_times (t +ℤ elapsed_units second earlier now s) left
            ≡ less_expired (t +ℤ elapsed_units second earlier now s) (due_times t between))
        × IsDelta left
  unfolding round
  round-Requested t received s d f =
      let (between, serves, requested, deltas) = serve_packet-Requested t received s.head d f in
      let (left, passes, keeps, still) =
        update_nodes-Passed second earlier now t (record s { head = between }) deltas in
      (between, left, requested, rw serves passes, keeps, still)
