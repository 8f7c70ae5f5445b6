-- ===== src/Tcpd/Stream/Table.antt =====
-- Tables of sockets by session: lookup, update and insertion in a table without a session, and in
-- one that has a single socket of it.
use network_proj.Prelude.{
  ℕ, ◌≡◌, ◌≢◌, inl, inr, true, false, ◌==◌, if◌then◌else◌, if_cases, if_some, List, [], ◌∷◌, ◌++◌,
  none, some, All, All-append, arith,
}
use network_proj.Tcpd.State.{AcceptedSocket, find_accepted, update_accepted, insert_accepted}
use network_proj.Tcpd.Stream.{Absent, One}

pub find_accepted-session :
    (q : ℕ) (s : AcceptedSocket) (l : List AcceptedSocket)
    → find_accepted q l ≡ some s
    → s.session ≡ q
unfolding find_accepted
find_accepted-session q s [] e = cc
find_accepted-session q s (x ∷ l) e = ground (arith, find_accepted-session q s l)

-- A property of every socket of the table holds of the one that is found, and stays when one is
-- assigned to or inserted.
module _ (P : AcceptedSocket → Type 0) where
  pub find_accepted-All :
      (q : ℕ) (s : AcceptedSocket) (l : List AcceptedSocket)
      → find_accepted q l ≡ some s
      → All P l
      → P s
  unfolding find_accepted
  find_accepted-All q s [] e h = cc
  find_accepted-All q s (x ∷ l) e h =
      if_some P (x.session == q) x s (find_accepted q l) e h.0
        (λ later. find_accepted-All q s l later h.1)

  pub update_accepted-All :
      (new : AcceptedSocket) (l : List AcceptedSocket)
      → P new
      → All P l
      → All P (update_accepted new l)
  unfolding update_accepted
  update_accepted-All new [] p h = tt
  update_accepted-All new (x ∷ l) p h =
      elim (x.session == new.session)
        as (λ b. All P (if b then new ∷ l else x ∷ update_accepted new l)) [
          | true ↦ (p, h.1)
          | false ↦ (h.0, update_accepted-All new l p h.1)
        ]

  pub insert_accepted-All :
      (new : AcceptedSocket) (l : List AcceptedSocket)
      → P new
      → All P l
      → All P (insert_accepted new l)
  unfolding insert_accepted
  insert_accepted-All new [] p h = (p, tt)
  insert_accepted-All new (x ∷ l) p h =
      elim (x.session == new.session)
        as (λ b. All P (if b then new ∷ l else x ∷ insert_accepted new l)) [
          | true ↦ (p, h.1)
          | false ↦ (h.0, insert_accepted-All new l p h.1)
        ]

module _ (k : ℕ) (P : AcceptedSocket → Type 0) where
  -- A table with the session is not one without.
  pub One-find :
      (s : AcceptedSocket) (l : List AcceptedSocket) → find_accepted k l ≡ some s → One k P l → P s
  unfolding find_accepted
  One-find s [] e h = elim h [ ]
  One-find s (x ∷ l) e (inl own) = rw (← x_is) own.1
    where
      x_is : x ≡ s
      x_is = ground (arith, own.0)
  One-find s (x ∷ l) e (inr other) = One-find s l (ground (arith, other.0)) other.1

  pub One-found : (l : List AcceptedSocket) → One k P l → find_accepted k l ≢ none
  unfolding find_accepted
  One-found [] h e = elim h [ ]
  One-found (x ∷ l) (inl own) e = ground (arith, own.0)
  One-found (x ∷ l) (inr other) e = One-found l other.1 (ground (arith, other.0))

  pub update-One :
      (new : AcceptedSocket) (l : List AcceptedSocket)
      → (new.session ≡ k → P new)
      → One k P l
      → One k P (update_accepted new l)
  unfolding update_accepted
  update-One new [] p h = elim h [ ]
  update-One new (x ∷ l) p (inl own) =
      if_cases (One k P) (x.session == new.session) _ _
        (λ same. inl (ground (arith, own.0), p (ground (arith, own.0)), own.2))
        (λ apart. inl (
          own.0,
          own.1,
          update_accepted-All (λ s. s.session ≢ k) new l (ground (arith, own.0)) own.2,
        ))
  update-One new (x ∷ l) p (inr other) =
      if_cases (One k P) (x.session == new.session) _ _
        (λ same. inr (ground (arith, other.0), other.1))
        (λ apart. inr (other.0, update-One new l p other.1))

  pub insert-One_new :
      (new : AcceptedSocket) (l : List AcceptedSocket)
      → new.session ≡ k
      → P new
      → Absent k l
      → One k P (insert_accepted new l)
  unfolding insert_accepted
  insert-One_new new [] e p h = inl (e, p, tt)
  insert-One_new new (x ∷ l) e p h =
      if_cases (One k P) (x.session == new.session) _ _ (λ same. absurd (h.0 (ground arith)))
        (λ apart. inr (h.0, insert-One_new new l e p h.1))

  pub insert-One_other :
      (new : AcceptedSocket) (l : List AcceptedSocket)
      → new.session ≢ k
      → One k P l
      → One k P (insert_accepted new l)
  unfolding insert_accepted
  insert-One_other new [] e h = elim h [ ]
  insert-One_other new (x ∷ l) e (inl own) =
      if_cases (One k P) (x.session == new.session) _ _ (λ same. absurd (e (ground (arith, own.0))))
        (λ apart. inl (own.0, own.1, insert_accepted-All (λ s. s.session ≢ k) new l e own.2))
  insert-One_other new (x ∷ l) e (inr other) =
      if_cases (One k P) (x.session == new.session) _ _ (λ same. inr (e, other.1))
        (λ apart. inr (other.0, insert-One_other new l e other.1))

  pub append-One_new :
      (new : AcceptedSocket) (l : List AcceptedSocket)
      → new.session ≡ k
      → P new
      → Absent k l
      → One k P (l ++ new ∷ [])
  append-One_new new [] e p h = inl (e, p, tt)
  append-One_new new (x ∷ l) e p h = inr (h.0, append-One_new new l e p h.1)

  pub append-One_other :
      (new : AcceptedSocket) (l : List AcceptedSocket)
      → new.session ≢ k
      → One k P l
      → One k P (l ++ new ∷ [])
  append-One_other new [] e h = elim h [ ]
  append-One_other new (x ∷ l) e (inl own) =
      inl (own.0, own.1, All-append (λ s. s.session ≢ k) l (new ∷ []) own.2 (e, tt))
  append-One_other new (x ∷ l) e (inr other) = inr (other.0, append-One_other new l e other.1)

  -- A weaker predicate.
  pub One-mono :
      (Q : AcceptedSocket → Type 0) (l : List AcceptedSocket)
      → ((s : AcceptedSocket) → P s → Q s)
      → One k P l
      → One k Q l
  One-mono Q [] f h = elim h [ ]
  One-mono Q (x ∷ l) f (inl own) = inl (own.0, f x own.1, own.2)
  One-mono Q (x ∷ l) f (inr other) = inr (other.0, One-mono Q l f other.1)
