-- ===== src/Turner/Update.antt =====
-- `updateNodes` of Turner/timer.c against the times at which the nodes are due.
use network_proj.Prelude.{
  ℕ, ◌*◌, ◌≡◌, refl, ap, ◌∙◌, Bool, true, false, inl, inr, List, [], ◌∷◌, ◌==◌, if◌then◌else◌,
  arith, Bool-cases,
}
use network_proj.Prelude.Int.{ℤ, pos, ◌+ℤ◌, ◌-ℤ◌, ltb_ℤ, int_laws, +ℤ_parts, -ℤ_parts}
use network_proj.Turner.{
  Node, State, Run, done, stale, ◌>>=◌, hand_over, delete_node, counted_from, diff_time,
  update_head, update_nodes,
}
use network_proj.Turner.Due.{Due, due, due_times, IsDelta}
use network_proj.Turner.Delete.{due_times-hand_over, hand_over-IsDelta}

-- Whether the time of the first entry has come.
unfoldable pub first_over : ℤ → List Due → Bool
first_over now [] = false
first_over now (d ∷ l) = if ltb_ℤ now d.at then false else true

-- At most one entry goes, the first.
unfoldable pub less_expired : ℤ → List Due → List Due
less_expired now [] = []
less_expired now (d ∷ l) = if ltb_ℤ now d.at then d ∷ l else l

abbrev counted : (t e a : ℤ) → t +ℤ e +ℤ (a -ℤ e) ≡ t +ℤ a
counted t e a = omega int_laws

pub same_number : (n : ℕ) → (n == n) ≡ true
same_number n = ground arith

over_later : (t e a : ℤ) → ltb_ℤ (t +ℤ e) (t +ℤ a) ≡ ltb_ℤ (pos 0) (a -ℤ e)
over_later t e a = ground (arith, +ℤ_parts t e, +ℤ_parts t a, -ℤ_parts a e)

-- What an update after a time `elapsed` leaves of a list that counts from `t`.
pub record Passed (t elapsed : ℤ) (old : List Node) (result : Run (List Node)) : Type 0 where
  pub left : List Node
  pub answers :
      result ≡ (if first_over (t +ℤ elapsed) (due_times t old) then stale left else done left)
  pub keeps : due_times (t +ℤ elapsed) left ≡ less_expired (t +ℤ elapsed) (due_times t old)
  pub deltas : IsDelta left

update_head-Passed :
    (t elapsed : ℤ) (l : List Node) → IsDelta l → Passed t elapsed l (update_head elapsed l)
unfolding update_head delete_node first_over less_expired due_times
update_head-Passed t e [] d = record { left = []; answers = refl; keeps = refl; deltas = tt }
update_head-Passed t e (n ∷ l) d = elim (Bool-cases (ltb_ℤ (pos 0) (n.time_diff -ℤ e))) [
  | inl running ↦
      let later = over_later t e n.time_diff ∙ running in
      record {
        left = record n { time_diff = n.time_diff -ℤ e } ∷ l;
        answers = rw (running, later) refl;
        keeps = rw later (ap (λ s. due n s ∷ due_times s l) (counted t e n.time_diff));
        deltas = d;
      }
  | inr over ↦
      let later = over_later t e n.time_diff ∙ over in
      let temp = record n { time_diff = n.time_diff -ℤ e } in
      record {
        left = hand_over temp l;
        answers = rw (over, later, same_number n.seq) refl;
        keeps = rw later (
            due_times-hand_over (t +ℤ e) temp l
            ∙ ap (λ s. due_times s l) (counted t e n.time_diff));
        deltas = hand_over-IsDelta temp l d;
      }
]

-- The state after an update at `now`.
abbrev updated : List Node → ℕ → State
updated l now = record { head = l; last_time = now }

module _ (second earlier now : ℕ) where
  -- The units that have gone by since the list was last counted.
  abbrev pub elapsed_units : State → ℤ
  elapsed_units s = pos (second * diff_time now (counted_from s.last_time earlier))

  -- An update removes the first node if its time has come, but no other that is due as well; every
  -- node that is left is due when it was, and no difference but the first is negative. If a node
  -- was removed, it was read after it had been freed; otherwise the update ends well.
  pub update_nodes-Passed :
      (t : ℤ) (s : State)
      → IsDelta s.head
      → (left : List Node) × (update_nodes second earlier now s ≡ (
          if first_over (t +ℤ elapsed_units s) (due_times t s.head)
          then stale (updated left now)
          else done (updated left now)))
        × (due_times (t +ℤ elapsed_units s) left
            ≡ less_expired (t +ℤ elapsed_units s) (due_times t s.head))
        × IsDelta left
  unfolding update_nodes
  update_nodes-Passed t s d =
      let p = update_head-Passed t (elapsed_units s) s.head d in
      (p.left, rw p.answers (with_time p.left _), p.keeps, p.deltas)
    where
      with_time :
          (l : List Node) (b : Bool)
          → ((if b then stale l else done l) >>= (λ l. done (updated l now)))
            ≡ (if b then stale (updated l now) else done (updated l now))
      with_time l true = refl
      with_time l false = refl
