-- ===== src/Turner.antt =====
-- Turner/timer.c: the first version of the timer process. The doubly linked list is a list, and the
-- pointer `temp` a position in it; what the C code does with a NULL pointer or a freed node is a
-- result of its own. `double` seconds are whole numbers of one unit.
pub mod Due
pub mod Add
pub mod Delete
pub mod Update
pub mod Faults
pub mod Round
mod Tests
use network_proj.Prelude.{
  ℕ, ◌+◌, ◌-◌, ◌*◌, ◌%◌, ◌^◌, List, [], ◌∷◌, Option, none, some, Bool, true, false, ◌==◌,
  if◌then◌else◌,
}
use network_proj.Prelude.Int.{ℤ, pos, ◌+ℤ◌, ◌-ℤ◌, ltb_ℤ}

-- `crash`: a NULL pointer is followed. `stale`: a field of a freed node is read; the state is the
-- one with which the process goes on if the read does not stop it.
pub data Run {ℓ} (A : Type ℓ) : Type ℓ where
  done : A → Run A
  stale : A → Run A
  crash : Run A

abbrev pub mark_stale {ℓ} : {A : Type ℓ} → Run A → Run A
mark_stale (done a) = stale a
mark_stale (stale a) = stale a
mark_stale crash = crash

infixl 5 ◌>>=◌
abbrev pub ◌>>=◌ {ℓ κ} : {A : Type ℓ} {B : Type κ} → Run A → (A → Run B) → Run B
done a >>= f = f a
stale a >>= f = mark_stale (f a)
crash >>= f = crash

abbrev pub start_timer : ℕ
start_timer = 1

abbrev pub end_timer : ℕ
end_timer = 0

-- `struct node`, less its two pointers
pub record Node : Type 0 where
  pub time_diff : ℤ
  pub port : ℕ
  pub seq : ℕ

-- `struct packet`
pub record Packet : Type 0 where
  pub return_port : ℕ
  pub seq : ℕ
  pub time : ℤ
  pub start : ℕ

unfoldable pub check_for_node : List Node → ℕ → Bool
check_for_node [] seq = false
check_for_node (n ∷ l) seq = if n.seq == seq then true else check_for_node l seq

-- The time of a node less that of the one it has been put behind.
abbrev pub minus : Node → Node → Node
minus n by = record n { time_diff = n.time_diff -ℤ by.time_diff }

-- The loop of `addNode` at `temp`, the two cases behind it, and the correction of the successor.
unfoldable pub place : Node → Node → List Node → List Node
place new temp [] =
    if ltb_ℤ temp.time_diff new.time_diff
    then temp ∷ minus new temp ∷ []
    else new ∷ minus temp new ∷ []
place new temp (n ∷ l) =
    if ltb_ℤ temp.time_diff new.time_diff
    then temp ∷ place (minus new temp) n l
    else new ∷ minus temp new ∷ n ∷ l

-- `temp=temp->next` and the test `temp->next != NULL` of the loop.
unfoldable pub place_behind : Node → Node → List Node → Run (List Node)
place_behind new head [] = crash
place_behind new head (temp ∷ l) = done (head ∷ place (minus new head) temp l)

abbrev pub made_node : Packet → Node
made_node p = record { time_diff = p.time; port = p.return_port; seq = p.seq }

unfoldable pub add_new : Node → List Node → Run (List Node)
add_new new [] = done (new ∷ [])
add_new new (temp ∷ l) =
    if ltb_ℤ new.time_diff temp.time_diff
    then done (new ∷ minus temp new ∷ l)
    else place_behind new temp l

-- The result of `addNode` with the list at `*head`.
unfoldable pub add_node : Packet → List Node → Run (ℕ × List Node)
add_node p l =
    if check_for_node l p.seq then done (0, l) else add_new (made_node p) l >>= (λ l'. done (1, l'))

-- The successor of a deleted node takes over its time.
abbrev pub hand_over : Node → List Node → List Node
hand_over n [] = []
hand_over n (next ∷ l) = record next { time_diff = next.time_diff +ℤ n.time_diff } ∷ l

-- The loop of `deleteNode` at `temp`, and the case of the last node.
unfoldable pub delete_at : ℕ → Node → List Node → ℕ × List Node
delete_at seq temp [] = if temp.seq == seq then (1, []) else (0, temp ∷ [])
delete_at seq temp (n ∷ l) =
    let (del, rest) = delete_at seq n l in
    if temp.seq == seq then (1, hand_over temp (n ∷ l)) else (del, temp ∷ rest)

unfoldable pub delete_behind : ℕ → Node → List Node → Run (ℕ × List Node)
delete_behind seq head [] = crash
delete_behind seq head (temp ∷ l) =
    let (del, rest) = delete_at seq temp l in done (del, head ∷ rest)

unfoldable pub delete_node : List Node → ℕ → Run (ℕ × List Node)
delete_node [] seq = done (0, [])
delete_node (n ∷ l) seq = if n.seq == seq then done (1, hand_over n l) else delete_behind seq n l

-- `head` and `lasttime`
pub record State : Type 0 where
  pub head : List Node
  pub last_time : ℕ

-- The first call of `time` only counts in the first round.
abbrev pub counted_from : ℕ → ℕ → ℕ
counted_from last_time earlier = if last_time == 0 then earlier else last_time

-- `uint64_t difftime=nowtime-lasttime`
abbrev pub diff_time : ℕ → ℕ → ℕ
diff_time now last = (now + 2 ^ 64 - last) % 2 ^ 64

-- The end of `updateNodes`: the node that has run out is freed before `temp->next` is read.
unfoldable pub update_head : ℤ → List Node → Run (List Node)
update_head elapsed [] = done []
update_head elapsed (n ∷ l) =
    let temp = record n { time_diff = n.time_diff -ℤ elapsed } in
    if ltb_ℤ (pos 0) temp.time_diff
    then done (temp ∷ l)
    else mark_stale (delete_node (temp ∷ l) temp.seq >>= (λ (del, l'). done l'))

-- `second` units are a second; `earlier` and `now` are what the two calls of `time` return.
module _ (second earlier now : ℕ) where
  unfoldable pub update_nodes : State → Run State
  update_nodes s =
      let elapsed = diff_time now (counted_from s.last_time earlier) in
      update_head (pos (second * elapsed)) s.head
      >>= (λ l. done (record { head = l; last_time = now }))

  -- What `recvfrom` has brought, if `select` says that there is something.
  unfoldable pub serve_packet : Option Packet → List Node → Run (List Node)
  serve_packet none l = done l
  serve_packet (some p) l =
      if p.start == start_timer
      then add_node p l >>= (λ (added, l'). done l')
      else if p.start == end_timer
      then delete_node l p.seq >>= (λ (del, l'). done l')
      else done l

  -- A round of the loop of `main`.
  unfoldable pub round : Option Packet → State → Run State
  round received s = serve_packet received s.head >>= (λ l. update_nodes (record s { head = l }))
