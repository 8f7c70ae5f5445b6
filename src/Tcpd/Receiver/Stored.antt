-- ===== src/Tcpd/Receiver/Stored.antt =====
-- What `RecvData` keeps of a package that it takes.
use network_proj.Prelude.{
  ℕ, ◌+◌, ◌<◌, ◌≡◌, ◌≢◌, refl, sym, ap, ◌∙◌, true, false, inl, inr, ◌⊎◌, Bool-cases, ◌==◌, List, [],
  ◌∷◌, ◌++◌, Option, none, some, ltb, ltb→lt, if◌then◌else◌, if_cases, All, arith,
}
use network_proj.Tcpd.Message.{Message}
use network_proj.Tcpd.State.{AcceptedSocket, Tcpd, find_accepted, update_accepted}
use network_proj.Tcpd.Receiver.{
  has_seq, insert_package, store_package, new_accepted, store_waiting, store_accepted, store,
}
use network_proj.Tcpd.Receiver.Window.{Rising, IsWindow}
use network_proj.Tcpd.Stream.Table.{find_accepted-session}

-- `n` is the number of one of these packages.
abbrev pub Among : ℕ → List Message → Type 0
Among n [] = ⊥
Among n (m ∷ l) = (m.seq_num ≡ n) ⊎ Among n l

-- A struct before and after a package has come: it is outdated, or there already, or it stands
-- between those of lower and those of higher numbers.
abbrev pub Placed : Message → List Message → List Message → Type 0
Placed m old new =
    (front back : List Message) × (old ≡ front ++ back)
    × (new ≡ front ++ m ∷ back)
    × All (λ x. x.seq_num < m.seq_num) front
    × All (λ x. m.seq_num < x.seq_num) back

abbrev pub Keeps : Message → AcceptedSocket → AcceptedSocket → Type 0
Keeps m s s' =
    ((m.seq_num < s.base) × (s' ≡ s))
    ⊎ ((Among m.seq_num s.packages × (s' ≡ s))
        ⊎ ((new : List Message) × (s' ≡ record s { packages = new }) × Placed m s.packages new))

has_seq-Among : (n : ℕ) (l : List Message) → has_seq n l ≡ true → Among n l
unfolding has_seq
has_seq-Among n [] h = absurd (ground arith)
has_seq-Among n (m ∷ l) h = elim (Bool-cases (m.seq_num == n)) [
  | inl here ↦ inl (ground arith)
  | inr other ↦ inr (has_seq-Among n l (ground arith))
]

above : (n lo : ℕ) (l : List Message) → n < lo → Rising lo l → All (λ x. n < x.seq_num) l
above n lo [] h r = tt
above n lo (m ∷ l) h r =
    (omega (h, r.0, arith), above n (m.seq_num + 1) l (omega (h, r.0, arith)) r.1)

behind :
    (new m : Message) (l l' : List Message)
    → m.seq_num < new.seq_num
    → Placed new l l'
    → Placed new (m ∷ l) (m ∷ l')
behind new m l l' h (front, back, whole, placed, before, after) =
    (m ∷ front, back, ap (◌∷◌ m) whole, ap (◌∷◌ m) placed, (h, before), after)

insert_package-Placed :
    (lo : ℕ) (new : Message) (l : List Message)
    → has_seq new.seq_num l ≡ false
    → Rising lo l
    → Placed new l (insert_package new l)
unfolding has_seq insert_package
insert_package-Placed lo new [] free r = ([], [], refl, refl, tt, tt)
insert_package-Placed lo new (m ∷ l) free r = elim (Bool-cases (ltb new.seq_num m.seq_num)) [
  | inl first ↦
      let less = ltb→lt new.seq_num m.seq_num first in
      rw first
        ([], m ∷ l, refl, refl, tt, (less, above new.seq_num (m.seq_num + 1) l (omega arith) r.1))
  | inr later ↦ rw later (
      behind new m l (insert_package new l) (ground arith)
        (insert_package-Placed (m.seq_num + 1) new l (ground arith) r.1))
]

store_package-Keeps :
    (m : Message) (s : AcceptedSocket) → IsWindow s → Keeps m s (store_package m s)
unfolding store_package
store_package-Keeps m s w =
    if_cases (Keeps m s) (ltb m.seq_num s.base) s
      (if has_seq m.seq_num s.packages
        then s
        else record s { packages = insert_package m s.packages })
      (λ outdated. inl (ltb→lt m.seq_num s.base outdated, refl))
      (λ current.
        if_cases (Keeps m s) (has_seq m.seq_num s.packages) s
          (record s { packages = insert_package m s.packages })
          (λ there. inr (inl (has_seq-Among m.seq_num s.packages there, refl)))
          (λ free. inr (
            inr (
              insert_package m s.packages,
              refl,
              insert_package-Placed s.base m s.packages free w,
            ))))

-- The struct of a session: a handed over one, or one that waits to be accepted.
abbrev pub first_of : Option AcceptedSocket → Option AcceptedSocket → Option AcceptedSocket
first_of none o = o
first_of (some s) o = some s

abbrev pub holder : ℕ → Tcpd → Option AcceptedSocket
holder q t =
    first_of (find_accepted q t.accepted_sockets) (find_accepted q t.waiting_accept_sockets)

-- The struct that a package of the session comes to.
abbrev pub or_new : ℕ → ℕ → Option AcceptedSocket → AcceptedSocket
or_new fd session none = new_accepted fd session
or_new fd session (some s) = s

abbrev pub target : ℕ → ℕ → Tcpd → AcceptedSocket
target fd session t = or_new fd session (holder session t)

-- The package is kept in the struct of its session, and the other sessions keep theirs.
abbrev pub Stored : ℕ → Message → Tcpd → Tcpd → Type 0
Stored fd m t t' =
    (s' : AcceptedSocket) × (holder m.session t' ≡ some s')
    × Keeps m (target fd m.session t) s'
    × ((q : ℕ) → q ≢ m.session → holder q t' ≡ holder q t)

store_package-session : (m : Message) (s : AcceptedSocket) → (store_package m s).session ≡ s.session
unfolding store_package
store_package-session m s = ground arith

find-update_same :
    (new s : AcceptedSocket) (l : List AcceptedSocket)
    → find_accepted new.session l ≡ some s
    → find_accepted new.session (update_accepted new l) ≡ some new
unfolding find_accepted update_accepted
find-update_same new s [] e = cc
find-update_same new s (x ∷ l) e = ground (arith, find-update_same new s l)

find-update_other :
    (q : ℕ) (new : AcceptedSocket) (l : List AcceptedSocket)
    → q ≢ new.session
    → find_accepted q (update_accepted new l) ≡ find_accepted q l
unfolding find_accepted update_accepted
find-update_other q new [] h = refl
find-update_other q new (x ∷ l) h = ground (arith, find-update_other q new l h)

find-append_same :
    (new : AcceptedSocket) (l : List AcceptedSocket)
    → find_accepted new.session l ≡ none
    → find_accepted new.session (l ++ new ∷ []) ≡ some new
unfolding find_accepted
find-append_same new [] e = ground arith
find-append_same new (x ∷ l) e = ground (arith, find-append_same new l)

find-append_other :
    (q : ℕ) (new : AcceptedSocket) (l : List AcceptedSocket)
    → q ≢ new.session
    → find_accepted q (l ++ new ∷ []) ≡ find_accepted q l
unfolding find_accepted
find-append_other q new [] h = ground arith
find-append_other q new (x ∷ l) h = ground (arith, find-append_other q new l h)

module _ (fd : ℕ) (m : Message) (t : Tcpd) where
  -- An update of a struct that is found, under its session.
  updated :
      (s : AcceptedSocket) (l : List AcceptedSocket)
      → find_accepted m.session l ≡ some s
      → (find_accepted m.session (update_accepted (store_package m s) l) ≡ some (store_package m s))
        × ((q : ℕ)
            → q ≢ m.session
            → find_accepted q (update_accepted (store_package m s) l) ≡ find_accepted q l)
  updated s l e =
      let own = store_package-session m s ∙ find_accepted-session m.session s l e in
      (
        ap (λ q. find_accepted q (update_accepted (store_package m s) l)) (sym own)
            ∙ find-update_same (store_package m s) s l (ap (λ q. find_accepted q l) own ∙ e),
        λ q h. find-update_other q (store_package m s) l (λ k. h (k ∙ own)),
      )

  waiting-Stored :
      (o : Option AcceptedSocket)
      → find_accepted m.session t.accepted_sockets ≡ none
      → find_accepted m.session t.waiting_accept_sockets ≡ o
      → IsWindow (or_new fd m.session o)
      → Stored fd m t (store_waiting fd m o t)
  unfolding store_waiting
  waiting-Stored (some s) free e w =
      let (same, others) = updated s t.waiting_accept_sockets e in
      (
        store_package m s,
        rw (free, same) refl,
        rw (free, e) (store_package-Keeps m s w),
        λ q h. ap (first_of (find_accepted q t.accepted_sockets)) (others q h),
      )
  waiting-Stored none free e w =
      let new = store_package m (new_accepted fd m.session) in
      let own = store_package-session m (new_accepted fd m.session) in
      (
        new,
        rw free (
            ap (λ q. find_accepted q (t.waiting_accept_sockets ++ new ∷ [])) (sym own)
            ∙ find-append_same new t.waiting_accept_sockets
                (ap (λ q. find_accepted q t.waiting_accept_sockets) own ∙ e)),
        rw (free, e) (store_package-Keeps m (new_accepted fd m.session) w),
        λ q h.
            ap (first_of (find_accepted q t.accepted_sockets))
              (find-append_other q new t.waiting_accept_sockets (λ k. h (k ∙ own))),
      )

  accepted-Stored :
      (o : Option AcceptedSocket)
      → find_accepted m.session t.accepted_sockets ≡ o
      → IsWindow
          (or_new fd m.session (first_of o (find_accepted m.session t.waiting_accept_sockets)))
      → Stored fd m t (store_accepted fd m o t)
  unfolding store_accepted
  accepted-Stored (some s) e w =
      let (same, others) = updated s t.accepted_sockets e in
      (
        store_package m s,
        rw same refl,
        rw e (store_package-Keeps m s w),
        λ q h. ap (λ o. first_of o (find_accepted q t.waiting_accept_sockets)) (others q h),
      )
  accepted-Stored none e w =
      waiting-Stored (find_accepted m.session t.waiting_accept_sockets) e refl w

  pub store-Stored : IsWindow (target fd m.session t) → Stored fd m t (store fd m t)
  unfolding store
  store-Stored w = accepted-Stored (find_accepted m.session t.accepted_sockets) refl w
