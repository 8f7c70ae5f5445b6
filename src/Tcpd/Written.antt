-- ===== src/Tcpd/Written.antt =====
-- What the sending daemon of Proj1/tcpd.c makes of the bytes that are written to a session:
-- `made` are the buffers of its SEND calls so far. Session `k` belongs to descriptor `f`.
use network_proj.Prelude.{
  ℕ, zero, suc, ◌≤◌, ◌≡◌, refl, List, [], ◌∷◌, ◌++◌, some, All, get_elem?, length, ◌==◌, if_cases,
  if_some,
}
use network_proj.Tcpd.Message.{Message}
use network_proj.Tcpd.State.{
  ConnectedSocket, Tcpd, posted, find_connected, insert_connected, update_connected,
}
use network_proj.Tcpd.Receiver.Fill.{payload}

-- A package of the session holds the buffer under its number.
abbrev pub IsMade : ℕ → List (List ℕ) → Message → Type 0
IsMade k made m =
    m.session ≡ k → (get_elem? made m.seq_num ≡ some (payload m)) × (m.len ≤ length m.body)

-- The socket of the session numbers the next package behind those that are made.
abbrev pub Knows : (k f : ℕ) → List (List ℕ) → ConnectedSocket → Type 0
Knows k f made c =
    (c.session ≡ k → (c.socket_fd ≡ f) × (c.base ≡ length made))
    × All (IsMade k made) c.packages
    × All (IsMade k made) c.pending_packages

pub record Wrote (k f : ℕ) (made : List (List ℕ)) (t : Tcpd) : Type 0 where
  pub sockets : All (Knows k f made) t.connected_sockets
  pub posts : All (IsMade k made) (posted t.sent)

get_elem?-append :
    (xs ys : List (List ℕ)) (i : ℕ) (v : List ℕ)
    → get_elem? xs i ≡ some v
    → get_elem? (xs ++ ys) i ≡ some v
get_elem?-append [] ys i v e = cc
get_elem?-append (x ∷ xs) ys zero v e = e
get_elem?-append (x ∷ xs) ys (suc i) v e = get_elem?-append xs ys i v e

pub get_elem?-last :
    (xs : List (List ℕ)) (x : List ℕ) → get_elem? (xs ++ x ∷ []) (length xs) ≡ some x
get_elem?-last [] x = refl
get_elem?-last (y ∷ xs) x = get_elem?-last xs x

-- More buffers leave the packages what they are.
module _ (k : ℕ) (made more : List (List ℕ)) where
  pub IsMade-append : (m : Message) → IsMade k made m → IsMade k (made ++ more) m
  IsMade-append m h e = (get_elem?-append made more m.seq_num (payload m) (h e).0, (h e).1)

  pub All-IsMade : (l : List Message) → All (IsMade k made) l → All (IsMade k (made ++ more)) l
  All-IsMade [] h = tt
  All-IsMade (m ∷ l) h = (IsMade-append m h.0, All-IsMade l h.1)

-- A property of every connected socket.
module _ (P : ConnectedSocket → Type 0) where
  pub find_connected-All :
      (fd : ℕ) (c : ConnectedSocket) (l : List ConnectedSocket)
      → find_connected fd l ≡ some c
      → All P l
      → P c
  unfolding find_connected
  find_connected-All fd c [] e h = cc
  find_connected-All fd c (x ∷ l) e h =
      if_some P (x.socket_fd == fd) x c (find_connected fd l) e h.0
        (λ later. find_connected-All fd c l later h.1)

  pub update_connected-All :
      (new : ConnectedSocket) (l : List ConnectedSocket)
      → P new
      → All P l
      → All P (update_connected new l)
  unfolding update_connected
  update_connected-All new [] p h = tt
  update_connected-All new (x ∷ l) p h =
      if_cases (All P) (x.socket_fd == new.socket_fd) _ _ (λ same. (p, h.1))
        (λ apart. (h.0, update_connected-All new l p h.1))

  pub insert_connected-All :
      (new : ConnectedSocket) (l : List ConnectedSocket)
      → P new
      → All P l
      → All P (insert_connected new l)
  unfolding insert_connected
  insert_connected-All new [] p h = (p, tt)
  insert_connected-All new (x ∷ l) p h =
      if_cases (All P) (x.socket_fd == new.socket_fd) _ _ (λ same. (p, h.1))
        (λ apart. (h.0, insert_connected-All new l p h.1))
