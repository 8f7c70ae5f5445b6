-- ===== src/Timer/Callbacks.antt =====
-- `SendCallbacks` against the sorted list of alarms.
use network_proj.Prelude.{
  ◌≡◌, refl, sym, ap, ◌∙◌, Bool, true, false, ◌&&◌, inl, inr, List, [], ◌∷◌, map, if◌then◌else◌,
  arith, Bool-cases,
}
use network_proj.Prelude.Int.{
  ℤ, pos, ◌+ℤ◌, ◌≤ℤ◌, ltb_ℤ, int_laws, ltb_ℤ→lt, ltb_ℤ→ge, lt→ltb_ℤ, ge→ltb_ℤ,
}
use network_proj.Net.{Addr, Outcome, done, exit}
use network_proj.Timer.Request.{TimerExpired}
use network_proj.Timer.{TimerNode, send_callbacks}
use network_proj.Timer.Deadlines.{Alarm, alarm, deadlines, rung, waiting, IsDelta}
use network_proj.Timer.Expiry.{due_later}

-- The message that tells whoever set an alarm that it has rung.
abbrev pub message : Alarm → Addr × TimerExpired
message a = (a.address, record { session = a.session; seq_num = a.seq_num })

-- Whether all of some messages can be sent.
unfoldable pub every {ℓ} : {A : Type ℓ} → (A → Bool) → List A → Bool
every p [] = true
every p (x ∷ xs) = p x && every p xs

rung-later :
    (now t : ℤ) (l : List TimerNode)
    → ltb_ℤ now t ≡ true
    → IsDelta l
    → (rung now (deadlines t l) ≡ []) × (waiting now (deadlines t l) ≡ deadlines t l)
unfolding rung waiting deadlines
rung-later now t [] h d = (refl, refl)
rung-later now t (n ∷ l) h d =
    let later : ltb_ℤ now (t +ℤ n.remain) ≡ true =
      lt→ltb_ℤ now (t +ℤ n.remain) (omega (int_laws, ltb_ℤ→lt now t h)) in
    let rest = rung-later now (t +ℤ n.remain) l later d.1 in
    rw later (rest.0, ap (◌∷◌ (alarm n (t +ℤ n.remain))) rest.1)

rung_running :
    (now : ℤ) (n : TimerNode) (l : List TimerNode)
    → IsDelta (n ∷ l)
    → ltb_ℤ (pos 0) n.remain ≡ true
    → (rung now (deadlines now (n ∷ l)) ≡ [])
      × (waiting now (deadlines now (n ∷ l)) ≡ deadlines now (n ∷ l))
unfolding rung waiting deadlines
rung_running now n l d running =
    let later = due_later now n.remain ∙ running in
    let rest = rung-later now (now +ℤ n.remain) l later d.1 in
    rw later (rest.0, ap (◌∷◌ (alarm n (now +ℤ n.remain))) rest.1)

rung_expired :
    (now : ℤ) (n : TimerNode) (l : List TimerNode)
    → pos 0 ≤ℤ n.remain
    → ltb_ℤ (pos 0) n.remain ≡ false
    → (rung now (deadlines now (n ∷ l)) ≡ alarm n now ∷ rung now (deadlines now l))
      × (waiting now (deadlines now (n ∷ l)) ≡ waiting now (deadlines now l))
unfolding rung waiting deadlines
rung_expired now n l h over =
    let due : now +ℤ n.remain ≡ now = omega (int_laws, ltb_ℤ→ge (pos 0) n.remain over) in
    rw (due, ge→ltb_ℤ now now (omega arith)) (refl, refl)

-- The first timer has time left.
abbrev pub HeadRuns : List TimerNode → Type 0
HeadRuns [] = Unit {0}
HeadRuns (n ∷ l) = ltb_ℤ (pos 0) n.remain ≡ true

-- What `SendCallbacks` does at a time `now`, to which the list counts.
pub record Called (sends : Addr × TimerExpired → Bool) (now : ℤ) (l : List TimerNode)
    (result : Outcome (List (Addr × TimerExpired) × List TimerNode)) : Type 0 where
  pub left : List TimerNode
  pub answers : result ≡ (
      if every sends (map message (rung now (deadlines now l)))
      then done (map message (rung now (deadlines now l)), left)
      else exit 1)
  pub keeps : deadlines now left ≡ waiting now (deadlines now l)
  pub deltas : IsDelta left
  pub head_runs : HeadRuns left

module _ (sends : Addr × TimerExpired → Bool) (now : ℤ) where
  Called-running :
      (n : TimerNode) (l : List TimerNode)
      → IsDelta (n ∷ l)
      → ltb_ℤ (pos 0) n.remain ≡ true
      → Called sends now (n ∷ l) (send_callbacks sends (n ∷ l))
  unfolding send_callbacks every
  Called-running n l d running =
      let none_yet = rung_running now n l d running in
      record {
        left = n ∷ l;
        answers = rw (none_yet.0, running);
        keeps = sym none_yet.1;
        deltas = d;
        head_runs = running;
      }

  Called-expired :
      (n : TimerNode) (l : List TimerNode)
      → IsDelta (n ∷ l)
      → ltb_ℤ (pos 0) n.remain ≡ false
      → Called sends now l (send_callbacks sends l)
      → Called sends now (n ∷ l) (send_callbacks sends (n ∷ l))
  unfolding send_callbacks every
  Called-expired n l d over rest =
      let one = rung_expired now n l d.0 over in
      record {
        left = rest.left;
        answers = rw (one.0, over) (ground (arith, rest.answers));
        keeps = rest.keeps ∙ sym one.1;
        deltas = rest.deltas;
        head_runs = rest.head_runs;
      }

  -- `SendCallbacks` sends exactly the messages of the alarms that have rung, in the order in which
  -- they are due, and keeps exactly the others with their times; if one of the messages cannot be
  -- sent, the process ends with code 1. No difference in the list is negative.
  pub send_callbacks-Called :
      (l : List TimerNode) → IsDelta l → Called sends now l (send_callbacks sends l)
  unfolding send_callbacks every rung waiting deadlines
  send_callbacks-Called [] d = record {
    left = [];
    answers = refl;
    keeps = refl;
    deltas = tt;
    head_runs = tt;
  }
  send_callbacks-Called (n ∷ l) d = elim (Bool-cases (ltb_ℤ (pos 0) n.remain)) [
    | inl running ↦ Called-running n l d running
    | inr over ↦ Called-expired n l d over (send_callbacks-Called l d.1)
  ]
