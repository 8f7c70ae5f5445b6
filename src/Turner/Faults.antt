-- ===== src/Turner/Faults.antt =====
-- Where Turner/timer.c follows a NULL pointer.
use network_proj.Prelude.{
  ℕ, ◌≡◌, refl, sym, ◌∙◌, List, [], ◌∷◌, Option, none, some, Bool, true, false, inl, inr, ◌==◌,
  if◌then◌else◌, arith, Bool-cases,
}
use network_proj.Prelude.Int.{ℤ, pos, ◌-ℤ◌, ltb_ℤ}
use network_proj.Turner.Update.{same_number}
use network_proj.Turner.{
  Node, Packet, State, Run, done, stale, crash, mark_stale, ◌>>=◌, start_timer, end_timer,
  check_for_node, place_behind, add_new, add_node, made_node, delete_behind, delete_node,
  update_head, update_nodes, serve_packet, round,
}

abbrev pub is_crash {ℓ} : {A : Type ℓ} → Run A → Bool
is_crash crash = true
is_crash _ = false

-- What a list of one node does not stand: a new node that is due no earlier than it, or the end of
-- a timer of another number.
unfoldable pub fatal : Option Packet → List Node → Bool
fatal (some p) (n ∷ []) =
    if n.seq == p.seq
    then false
    else if p.start == start_timer
    then (if ltb_ℤ p.time n.time_diff then false else true)
    else p.start == end_timer
fatal _ _ = false

is_crash-mark_stale {ℓ} : {A : Type ℓ} (r : Run A) → is_crash (mark_stale r) ≡ is_crash r
is_crash-mark_stale (done a) = refl
is_crash-mark_stale (stale a) = refl
is_crash-mark_stale crash = refl

-- A crash comes from the first part where the second never crashes.
is_crash-bind {ℓ κ} :
    {A : Type ℓ} {B : Type κ} (r : Run A) (f : A → Run B)
    → ((a : A) → is_crash (f a) ≡ false)
    → is_crash (r >>= f) ≡ is_crash r
is_crash-bind (done a) f h = h a
is_crash-bind (stale a) f h = is_crash-mark_stale (f a) ∙ h a
is_crash-bind crash f h = refl

is_crash-if {ℓ} :
    {A : Type ℓ} (b : Bool) (x y : Run A)
    → is_crash x ≡ false
    → is_crash y ≡ false
    → is_crash (if b then x else y) ≡ false
is_crash-if true x y h k = h
is_crash-if false x y h k = k

-- On two nodes or more the new node always has a place.
add_node_places :
    (p : Packet) (n m : Node) (l : List Node) → is_crash (add_node p (n ∷ m ∷ l)) ≡ false
unfolding add_node add_new place_behind
add_node_places p n m l = is_crash-if (check_for_node (n ∷ m ∷ l) p.seq) _ _ refl (
    is_crash-bind (add_new (made_node p) (n ∷ m ∷ l)) _ (λ l'. refl)
    ∙ is_crash-if (ltb_ℤ p.time n.time_diff) _ _ refl refl)

is_crash-add_node :
    (p : Packet) (l : List Node)
    → p.start ≡ start_timer
    → is_crash (add_node p l) ≡ fatal (some p) l
unfolding add_node add_new place_behind check_for_node fatal
is_crash-add_node p [] e = refl
is_crash-add_node p (n ∷ []) e = rw e (ground arith)
is_crash-add_node p (n ∷ m ∷ l) e = add_node_places p n m l

is_crash-delete_node :
    (p : Packet) (l : List Node)
    → p.start ≡ end_timer
    → is_crash (delete_node l p.seq) ≡ fatal (some p) l
unfolding delete_node delete_behind fatal
is_crash-delete_node p [] e = refl
is_crash-delete_node p (n ∷ []) e = rw e (ground arith)
is_crash-delete_node p (n ∷ m ∷ l) e = ground arith

==→≡ : (a b : ℕ) → (a == b) ≡ true → a ≡ b
==→≡ a b h = ground arith

fatal_neither :
    (p : Packet) (l : List Node)
    → (p.start == start_timer) ≡ false
    → (p.start == end_timer) ≡ false
    → fatal (some p) l ≡ false
unfolding fatal
fatal_neither p [] a b = refl
fatal_neither p (n ∷ []) a b = rw (a, b) (ground arith)
fatal_neither p (n ∷ m ∷ l) a b = refl

-- The node that has run out is the first, and is found.
is_crash-update_head : (elapsed : ℤ) (l : List Node) → is_crash (update_head elapsed l) ≡ false
unfolding update_head delete_node
is_crash-update_head elapsed [] = refl
is_crash-update_head elapsed (n ∷ l) =
    is_crash-if (ltb_ℤ (pos 0) (n.time_diff -ℤ elapsed)) _ _ refl (rw (same_number n.seq) refl)

module _ (second earlier now : ℕ) where
  is_crash-serve_packet :
      (received : Option Packet) (l : List Node)
      → is_crash (serve_packet second earlier now received l) ≡ fatal received l
  unfolding serve_packet
  is_crash-serve_packet none l = unfold fatal in refl
  is_crash-serve_packet (some p) l = elim (Bool-cases (p.start == start_timer)) [
    | inl starts ↦ rw starts (
        is_crash-bind (add_node p l) _ (λ r. refl)
        ∙ is_crash-add_node p l (==→≡ p.start start_timer starts))
    | inr other ↦ elim (Bool-cases (p.start == end_timer)) [
      | inl ends ↦
          rw (other, ends)
            (is_crash-bind (delete_node l p.seq) _ (λ r. refl)
              ∙ is_crash-delete_node p l (==→≡ p.start end_timer ends))
      | inr neither ↦ rw (other, neither) (sym (fatal_neither p l other neither))
    ]
  ]

  -- A round of the loop follows a NULL pointer exactly if the list consists of one node and the
  -- packet that has come starts a timer of another number that is due no earlier, or ends a timer
  -- of another number.
  pub is_crash-round :
      (received : Option Packet) (s : State)
      → is_crash (round second earlier now received s) ≡ fatal received s.head
  unfolding round update_nodes
  is_crash-round received s =
      is_crash-bind (serve_packet second earlier now received s.head) _
        (λ l. is_crash-bind (update_head _ l) _ (λ l'. refl) ∙ is_crash-update_head _ l)
      ∙ is_crash-serve_packet received s.head
