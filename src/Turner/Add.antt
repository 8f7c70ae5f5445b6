-- ===== src/Turner/Add.antt =====
-- `addNode` of Turner/timer.c against the times at which the nodes are due.
use network_proj.Prelude.{◌≡◌, refl, subst, true, false, inl, inr, List, [], ◌∷◌, Bool-cases}
use network_proj.Prelude.Int.{ℤ, pos, ◌+ℤ◌, ◌-ℤ◌, ◌≤ℤ◌, ltb_ℤ, int_laws, ltb_ℤ→lt, ltb_ℤ→ge}
use network_proj.Turner.{
  Node, Packet, done, check_for_node, minus, place, place_behind, made_node, add_new, add_node,
}
use network_proj.Turner.Due.{
  due, due_times, Deltas, IsDelta, Placed, Placed-first, Placed-behind, NotBefore-due_times,
}

abbrev by_time : (t a b : ℤ) → t +ℤ a +ℤ (b -ℤ a) ≡ t +ℤ b
by_time t a b = omega int_laws

-- The new node goes before a node that is due no earlier.
goes_before :
    (t : ℤ) (new temp : Node) (l : List Node)
    → new.time_diff ≤ℤ temp.time_diff
    → Deltas l
    → Placed
        (due new (t +ℤ new.time_diff))
        (due_times t (temp ∷ l))
        (due_times t (new ∷ minus temp new ∷ l))
unfolding due_times
goes_before t new temp l h d =
    let at = t +ℤ temp.time_diff in
    let same = by_time t new.time_diff temp.time_diff in
    let no_later : t +ℤ new.time_diff ≤ℤ at = omega (h, int_laws) in
    rw same (
      Placed-first (due new (t +ℤ new.time_diff)) (due temp at ∷ due_times at l)
        (no_later, NotBefore-due_times (t +ℤ new.time_diff) at l no_later d))

goes_behind :
    (t : ℤ) (new temp : Node) (old result : List Node)
    → temp.time_diff ≤ℤ new.time_diff
    → Placed
        (due new (t +ℤ temp.time_diff +ℤ (new.time_diff -ℤ temp.time_diff)))
        (due_times (t +ℤ temp.time_diff) old)
        (due_times (t +ℤ temp.time_diff) result)
    → Placed (due new (t +ℤ new.time_diff)) (due_times t (temp ∷ old)) (due_times t (temp ∷ result))
unfolding due_times
goes_behind t new temp old result h p =
    let at = t +ℤ temp.time_diff in
    let no_later : at ≤ℤ t +ℤ new.time_diff = omega (h, int_laws) in
    Placed-behind (due new (t +ℤ new.time_diff)) (due temp at) _ _ no_later (
      subst (λ s. Placed (due new s) (due_times at old) (due_times at result))
        (by_time t temp.time_diff new.time_diff) p)

-- What is known of a list with a new node, given the one without.
pub record Added (t : ℤ) (new : Node) (old result : List Node) : Type 0 where
  pub placed : Placed (due new (t +ℤ new.time_diff)) (due_times t old) (due_times t result)
  pub deltas : IsDelta result

lt→le : (a b : ℤ) → ltb_ℤ a b ≡ true → a ≤ℤ b
lt→le a b h = omega (int_laws, ltb_ℤ→lt a b h)

-- `pos 0 ≤ℤ new - temp`, where the test has said that new comes later, and the other way round.
difference_later : (a b : ℤ) → ltb_ℤ a b ≡ true → pos 0 ≤ℤ b -ℤ a
difference_later a b h = omega (int_laws, ltb_ℤ→lt a b h)

difference_earlier : (a b : ℤ) → ltb_ℤ a b ≡ false → pos 0 ≤ℤ a -ℤ b
difference_earlier a b h = omega (int_laws, ltb_ℤ→ge a b h)

place-Placed :
    (t : ℤ) (new temp : Node) (l : List Node)
    → Deltas (new ∷ temp ∷ l)
    → Placed
        (due new (t +ℤ new.time_diff))
        (due_times t (temp ∷ l))
        (due_times t (place new temp l))
      × Deltas (place new temp l)
unfolding place
place-Placed t new temp [] d = elim (Bool-cases (ltb_ℤ temp.time_diff new.time_diff)) [
  | inl more ↦ rw more (
    goes_behind t new temp [] (minus new temp ∷ []) (lt→le temp.time_diff new.time_diff more)
        (unfold due_times in Placed-first (due new _) [] tt),
    (d.1.0, (difference_later temp.time_diff new.time_diff more, tt)),
  )
  | inr less ↦ rw less (
    goes_before t new temp [] (ltb_ℤ→ge temp.time_diff new.time_diff less) tt,
    (d.0, (difference_earlier temp.time_diff new.time_diff less, tt)),
  )
]
place-Placed t new temp (n ∷ l) d = elim (Bool-cases (ltb_ℤ temp.time_diff new.time_diff)) [
  | inl more ↦
      let rest =
        place-Placed (t +ℤ temp.time_diff) (minus new temp) n l
          (difference_later temp.time_diff new.time_diff more, d.1.1) in
      rw more (
        goes_behind t new temp (n ∷ l) (place (minus new temp) n l)
            (lt→le temp.time_diff new.time_diff more) rest.0,
        (d.1.0, rest.1),
      )
  | inr less ↦ rw less (
    goes_before t new temp (n ∷ l) (ltb_ℤ→ge temp.time_diff new.time_diff less) d.1.1,
    (d.0, (difference_earlier temp.time_diff new.time_diff less, d.1.1)),
  )
]

-- The list has one node, and a new one of this time does not go before it.
abbrev pub AloneBefore : ℤ → List Node → Type 0
AloneBefore time [] = ⊥
AloneBefore time (n ∷ []) = ltb_ℤ time n.time_diff ≡ false
AloneBefore time (n ∷ m ∷ l) = ⊥

add_new-Added :
    (t : ℤ) (new : Node) (l : List Node)
    → IsDelta l
    → ¬ AloneBefore new.time_diff l
    → (l' : List Node) × (add_new new l ≡ done l') × Added t new l l'
unfolding add_new place_behind
add_new-Added t new [] d h = (
  new ∷ [],
  refl,
  record {
    placed = unfold due_times in Placed-first (due new (t +ℤ new.time_diff)) [] tt;
    deltas = tt;
  },
)
add_new-Added t new (temp ∷ l) d h = elim (Bool-cases (ltb_ℤ new.time_diff temp.time_diff)) [
  | inl first ↦ (
    new ∷ minus temp new ∷ l,
    rw first refl,
    record {
      placed = goes_before t new temp l (lt→le new.time_diff temp.time_diff first) d;
      deltas = (difference_later new.time_diff temp.time_diff first, d);
    },
  )
  | inr later ↦ rw later (behind later l d h)
]
  where
    behind :
        ltb_ℤ new.time_diff temp.time_diff ≡ false
        → (l : List Node) → Deltas l
        → ¬ AloneBefore new.time_diff (temp ∷ l)
        → (l' : List Node) × (place_behind new temp l ≡ done l') × Added t new (temp ∷ l) l'
    behind later [] d h = absurd (h later)
    behind later (n ∷ l) d h =
        let rest =
          place-Placed (t +ℤ temp.time_diff) (minus new temp) n l
            (difference_earlier new.time_diff temp.time_diff later, d) in
        (
          temp ∷ place (minus new temp) n l,
          refl,
          record {
            placed =
                goes_behind t new temp (n ∷ l) (place (minus new temp) n l)
                  (ltb_ℤ→ge new.time_diff temp.time_diff later) rest.0;
            deltas = rest.1;
          },
        )

-- A node whose number is not in the list is put at its time among the others, behind nodes that are
-- due no later and before nodes that are due no earlier, and no other is moved; no difference but
-- the first becomes negative. `addNode` returns 1. The list must not consist of one node that is
-- due no later than the new one.
pub add_node-Added :
    (t : ℤ) (p : Packet) (l : List Node)
    → IsDelta l
    → check_for_node l p.seq ≡ false
    → ¬ AloneBefore p.time l
    → (l' : List Node) × (add_node p l ≡ done (1, l')) × Added t (made_node p) l l'
unfolding add_node
add_node-Added t p l d free h =
    let (l', returns, added) = add_new-Added t (made_node p) l d h in
    (l', rw (free, returns) refl, added)
