-- ===== src/Tcpd/Sender/Idle.antt =====
-- A connection whose window is empty and whose packages have large numbers, and what `RecvAck` and
-- `RecvTimer` make of it.
use network_proj.Prelude.{
  ℕ, ◌+◌, ◌≤◌, ◌<◌, ◌^◌, ◌≡◌, ◌≢◌, refl, Bool, ◌==◌, if◌then◌else◌, if_cases, List, [], ◌∷◌, Option,
  none, some, All, All-append, ◌⊎◌, inl, inr,
}
use network_proj.Net.{OnDone}
use network_proj.Timer.Request.{TimerExpired}
use network_proj.Tcpd.Message.{Message, Ack, is_ack_intact}
use network_proj.Tcpd.Rto.{measure}
use network_proj.Tcpd.State.{ConnectedSocket, Tcpd, Output, cancel_timer, notify, posted}
use network_proj.Tcpd.Sender.{
  unlink, acknowledged, recv_ack, find_session, moved, expire_package, timer_found, recv_timer,
}
use network_proj.Tcpd.Sender.Written.{Unlinked, unlink-Unlinked, find_session-All}
use network_proj.Tcpd.Written.{update_connected-All}

-- The packages of one session.
unfoldable pub of_session : ℕ → List Message → List Message
of_session k [] = []
of_session k (m ∷ l) = if m.session == k then m ∷ of_session k l else of_session k l

-- The first number that `MinSeq` keeps out of an empty window.
abbrev pub far : ℕ
far = 100000064

-- The connection of session `k` has an empty window, and its packages, those of the next `n` SEND
-- calls included, have numbers from 100000064 on that do not wrap around. The others hold no
-- package of the session.
abbrev pub IsIdle : ℕ → ℕ → ConnectedSocket → Type 0
IsIdle k n c =
    ((c.session ≡ k)
      × (c.packages ≡ [])
      × All (λ m. far ≤ m.seq_num) c.pending_packages
      × (far ≤ c.base)
      × (c.base + n < 2 ^ 32))
    ⊎ ((c.session ≢ k)
        × All (λ m. m.session ≢ k) c.packages
        × All (λ m. m.session ≢ k) c.pending_packages)

-- Every connection is such a one, and `before` are the packages of the session sent so far.
pub record Stalled (k : ℕ) (before : List Message) (n : ℕ) (t : Tcpd) : Type 0 where
  pub sockets : All (IsIdle k n) t.connected_sockets
  pub posts : of_session k (posted t.sent) ≡ before

module _ (k : ℕ) (before : List Message) (n : ℕ) where
  acknowledged_idle :
      (c : ConnectedSocket) (session seq : ℕ) (t : Tcpd)
      → IsIdle k n c
      → Stalled k before n t
      → Stalled k before n (acknowledged c (unlink session seq c.packages) t)
  unfolding unlink
  acknowledged_idle c session seq t (inl own) h = rw own.1 h
  acknowledged_idle c session seq t (inr other) h =
      removed (unlink session seq c.packages)
        (unlink-Unlinked (λ m. m.session ≢ k) session seq c.packages other.1)
    where
      removed :
          (o : Option (Message × List Message))
          → Unlinked (λ m. m.session ≢ k) o
          → Stalled k before n (acknowledged c o t)
      removed none u = h
      removed (some (m, rest)) u = record {
        sockets =
            update_connected-All (IsIdle k n) (record c { packages = rest }) t.connected_sockets
              (inr (other.0, u.1, other.2)) h.sockets;
        posts = h.posts;
      }

  pub recv_ack-Stalled :
      (sends : Output → Bool) (c : ConnectedSocket) (now : ℕ) (a : Option Ack) (t : Tcpd)
      → IsIdle k n c
      → Stalled k before n t
      → OnDone (Stalled k before n) (recv_ack sends c now a t)
  unfolding recv_ack notify
  recv_ack-Stalled sends c now none t s h = tt
  recv_ack-Stalled sends c now (some a) t s h =
      if_cases (OnDone (Stalled k before n)) (is_ack_intact a) _ _
        (λ intact. record {
          sockets = acked.sockets;
          posts =
              if_cases (λ l. of_session k (posted l) ≡ before)
                (sends (cancel_timer a.session a.seq_num)) _ _ (λ went. acked.posts)
                (λ failed. acked.posts);
        })
        (λ garbled. record { sockets = h.sockets; posts = h.posts })
    where
      acked : Stalled k before n (
          acknowledged c
            (unlink a.session a.seq_num c.packages)
            (record t { estimator = measure now t.estimator }))
      acked =
          acknowledged_idle c a.session a.seq_num (record t { estimator = measure now t.estimator })
            s (record { sockets = h.sockets; posts = h.posts })

  expire_package-IsIdle :
      (session seq : ℕ) (c : ConnectedSocket)
      → IsIdle k n c
      → IsIdle k n (expire_package session seq c)
  unfolding expire_package unlink
  expire_package-IsIdle session seq c (inl own) = rw own.1 (inl (own.0, refl, own.2, own.3, own.4))
  expire_package-IsIdle session seq c (inr other) =
      behind (unlink session seq c.packages)
        (unlink-Unlinked (λ m. m.session ≢ k) session seq c.packages other.1)
    where
      behind :
          (o : Option (Message × List Message))
          → Unlinked (λ m. m.session ≢ k) o
          → IsIdle k n (moved c o)
      behind none u = inr other
      behind (some (m, rest)) u = inr (
        other.0,
        u.1,
        All-append (λ x. x.session ≢ k) c.pending_packages (m ∷ []) other.2 (u.0, tt),
      )

  timer_found-Stalled :
      (e : TimerExpired) (o : Option ConnectedSocket) (t : Tcpd)
      → find_session e.session t.connected_sockets ≡ o
      → Stalled k before n t
      → OnDone (Stalled k before n) (timer_found e o t)
  unfolding timer_found
  timer_found-Stalled e none t found h = tt
  timer_found-Stalled e (some c) t found h = record {
    sockets =
        update_connected-All (IsIdle k n) (expire_package e.session e.seq_num c) t.connected_sockets
          (expire_package-IsIdle e.session e.seq_num c
            (find_session-All (IsIdle k n) e.session c t.connected_sockets found h.sockets))
          h.sockets;
    posts = h.posts;
  }

  pub recv_timer-Stalled :
      (e : Option TimerExpired) (t : Tcpd)
      → Stalled k before n t
      → OnDone (Stalled k before n) (recv_timer e t)
  unfolding recv_timer
  recv_timer-Stalled none t h = tt
  recv_timer-Stalled (some e) t h =
      timer_found-Stalled e (find_session e.session t.connected_sockets) t refl h
