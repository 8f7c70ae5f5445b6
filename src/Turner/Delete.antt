-- ===== src/Turner/Delete.antt =====
-- `deleteNode` of Turner/timer.c against the times at which the nodes are due.
use network_proj.Prelude.{
  ℕ, ◌≡◌, refl, ap, false, inl, inr, List, [], ◌∷◌, ◌==◌, if◌then◌else◌, Bool-cases,
}
use network_proj.Prelude.Int.{ℤ, ◌+ℤ◌, int_laws}
use network_proj.Turner.{
  Node, done, check_for_node, hand_over, delete_at, delete_behind, delete_node,
}
use network_proj.Turner.Due.{due, due_times, without, Deltas, IsDelta}

abbrev taken_over : (t a b : ℤ) → t +ℤ (b +ℤ a) ≡ t +ℤ a +ℤ b
taken_over t a b = omega int_laws

pub due_times-hand_over :
    (t : ℤ) (n : Node) (l : List Node)
    → due_times t (hand_over n l) ≡ due_times (t +ℤ n.time_diff) l
unfolding due_times
due_times-hand_over t n [] = refl
due_times-hand_over t n (next ∷ l) =
    ap (λ s. due next s ∷ due_times s l) (taken_over t n.time_diff next.time_diff)

pub hand_over-IsDelta : (n : Node) (l : List Node) → Deltas l → IsDelta (hand_over n l)
hand_over-IsDelta n [] d = tt
hand_over-IsDelta n (next ∷ l) d = d.1

hand_over-Deltas : (n : Node) (l : List Node) → Deltas (n ∷ l) → Deltas (hand_over n l)
hand_over-Deltas n [] d = tt
hand_over-Deltas n (next ∷ l) d = (omega (d.0, d.1.0, int_laws), d.1.1)

-- What is known of a list without a node, given the code that is returned and the one with it.
pub record Deleted (t : ℤ) (seq code : ℕ) (old result : List Node) : Type 0 where
  pub counts : code ≡ (if check_for_node old seq then 1 else 0)
  pub keeps : due_times t result ≡ without seq (due_times t old)

delete_at-Deleted :
    (t : ℤ) (seq : ℕ) (temp : Node) (l : List Node)
    → Deltas (temp ∷ l)
    → Deleted t seq (delete_at seq temp l).0 (temp ∷ l) (delete_at seq temp l).1
      × Deltas (delete_at seq temp l).1
unfolding delete_at check_for_node due_times without
delete_at-Deleted t seq temp [] d = elim (Bool-cases (temp.seq == seq)) [
  | inl found ↦ rw found (record { counts = rw found refl; keeps = rw found refl }, tt)
  | inr other ↦ rw other (record { counts = rw other refl; keeps = rw other refl }, d)
]
delete_at-Deleted t seq temp (n ∷ l) d = elim (Bool-cases (temp.seq == seq)) [
  | inl found ↦ rw found (
    record { counts = rw found refl; keeps = rw found (due_times-hand_over t temp (n ∷ l)) },
    hand_over-Deltas temp (n ∷ l) d,
  )
  | inr other ↦
      let (rest, deltas) = delete_at-Deleted (t +ℤ temp.time_diff) seq n l d.1 in
      rw other (
        record {
          counts = rw other rest.counts;
          keeps = rw other (ap (◌∷◌ (due temp (t +ℤ temp.time_diff))) rest.keeps);
        },
        (d.0, deltas),
      )
]

-- The list has one node, and its number is another.
abbrev pub AloneOther : ℕ → List Node → Type 0
AloneOther seq [] = ⊥
AloneOther seq (n ∷ []) = (n.seq == seq) ≡ false
AloneOther seq (n ∷ m ∷ l) = ⊥

delete_behind-Deleted :
    (t : ℤ) (seq : ℕ) (head : Node) (l : List Node)
    → Deltas l
    → (head.seq == seq) ≡ false
    → ¬ AloneOther seq (head ∷ l)
    → (code : ℕ) × (l' : List Node) × (delete_behind seq head l ≡ done (code, l'))
      × Deleted t seq code (head ∷ l) l'
      × IsDelta l'
unfolding delete_behind check_for_node due_times without
delete_behind-Deleted t seq head [] d other h = absurd (h other)
delete_behind-Deleted t seq head (n ∷ l) d other h =
    let (rest, deltas) = delete_at-Deleted (t +ℤ head.time_diff) seq n l d in
    (
      (delete_at seq n l).0,
      head ∷ (delete_at seq n l).1,
      refl,
      record {
        counts = rw other rest.counts;
        keeps = rw other (ap (◌∷◌ (due head (t +ℤ head.time_diff))) rest.keeps);
      },
      deltas,
    )

-- `deleteNode` takes the node of that number out of the list, moves no other, and returns 1; where
-- there is none it changes nothing and returns 0. No difference but the first becomes negative. The
-- list must not consist of one node of another number.
pub delete_node-Deleted :
    (t : ℤ) (seq : ℕ) (l : List Node)
    → IsDelta l
    → ¬ AloneOther seq l
    → (code : ℕ) × (l' : List Node) × (delete_node l seq ≡ done (code, l'))
      × Deleted t seq code l l'
      × IsDelta l'
unfolding delete_node
delete_node-Deleted t seq [] d h = (
  0,
  [],
  refl,
  record { counts = unfold check_for_node in refl; keeps = unfold due_times without in refl },
  tt,
)
delete_node-Deleted t seq (n ∷ l) d h = elim (Bool-cases (n.seq == seq)) [
  | inl found ↦ (
    1,
    hand_over n l,
    rw found refl,
    record {
      counts = unfold check_for_node in rw found refl;
      keeps = unfold due_times without in rw found (due_times-hand_over t n l);
    },
    hand_over-IsDelta n l d,
  )
  | inr other ↦ rw other (delete_behind-Deleted t seq n l d other h)
]
