-- ===== src/Timer/Deadlines.antt =====
-- What the timer process promises: a list of alarms, each with the absolute time at which it is
-- due, sorted by that time. `deadlines` reads such a list off the differences that timer.c keeps.
use network_proj.Prelude.{
  ℕ, ◌≡◌, refl, Bool, true, false, ◌&&◌, List, [], ◌∷◌, ◌==◌, if◌then◌else◌, arith,
}
use network_proj.Prelude.Int.{ℤ, pos, ◌+ℤ◌, ◌≤ℤ◌, ltb_ℤ, +ℤ_parts}
use network_proj.Net.{Addr}
use network_proj.Timer.{TimerNode, find_node}

pub record Alarm : Type 0 where
  pub session : ℕ
  pub seq_num : ℕ
  pub due : ℤ
  pub address : Addr

abbrev pub alarm : TimerNode → ℤ → Alarm
alarm n due = record {
  session = n.session;
  seq_num = n.seq_num;
  due = due;
  address = n.request_addr;
}

-- The alarms of a list whose first node counts from `now`.
unfoldable pub deadlines : ℤ → List TimerNode → List Alarm
deadlines now [] = []
deadlines now (n ∷ l) = alarm n (now +ℤ n.remain) ∷ deadlines (now +ℤ n.remain) l

-- A new alarm goes behind all that are due no later.
unfoldable pub schedule : Alarm → List Alarm → List Alarm
schedule a [] = a ∷ []
schedule a (b ∷ l) = if ltb_ℤ a.due b.due then a ∷ b ∷ l else b ∷ schedule a l

abbrev pub names : ℕ → ℕ → Alarm → Bool
names session seq_num a = (a.session == session) && (a.seq_num == seq_num)

unfoldable pub is_set : ℕ → ℕ → List Alarm → Bool
is_set session seq_num [] = false
is_set session seq_num (a ∷ l) = if names session seq_num a then true else is_set session seq_num l

-- The first alarm of that name goes, and no other changes.
unfoldable pub unset : ℕ → ℕ → List Alarm → List Alarm
unset session seq_num [] = []
unset session seq_num (a ∷ l) = if names session seq_num a then l else a ∷ unset session seq_num l

-- An alarm that is overdue counts as due now.
unfoldable pub overdue_now : ℤ → List Alarm → List Alarm
overdue_now now [] = []
overdue_now now (a ∷ l) =
    (if ltb_ℤ now a.due then a else record a { due = now }) ∷ overdue_now now l

-- The alarms that have rung at a time, and those that have not.
unfoldable pub rung : ℤ → List Alarm → List Alarm
rung now [] = []
rung now (a ∷ l) = if ltb_ℤ now a.due then rung now l else a ∷ rung now l

unfoldable pub waiting : ℤ → List Alarm → List Alarm
waiting now [] = []
waiting now (a ∷ l) = if ltb_ℤ now a.due then a ∷ waiting now l else waiting now l

-- No difference is negative.
abbrev pub IsDelta : List TimerNode → Type 0
IsDelta [] = Unit {0}
IsDelta (n ∷ l) = (pos 0 ≤ℤ n.remain) × IsDelta l

pub ltb_ℤ-add : (t a b : ℤ) → ltb_ℤ (t +ℤ a) (t +ℤ b) ≡ ltb_ℤ a b
ltb_ℤ-add t a b = ground (arith, +ℤ_parts t a, +ℤ_parts t b)

pub is_set-deadlines :
    (now : ℤ) (session seq_num : ℕ) (l : List TimerNode)
    → is_set session seq_num (deadlines now l) ≡ find_node session seq_num l
unfolding is_set deadlines find_node
is_set-deadlines now session seq_num [] = refl
is_set-deadlines now session seq_num (n ∷ l) =
    ground (arith, is_set-deadlines (now +ℤ n.remain) session seq_num l)
