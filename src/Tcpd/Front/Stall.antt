-- ===== src/Tcpd/Front/Stall.antt =====
-- What SEND and CONNECT make of a connection that the start value of `MinSeq` stops.
use network_proj.Prelude.{
  ℕ, ◌+◌, ◌%◌, ◌^◌, ◌≤◌, ◌≡◌, ◌≢◌, refl, sym, ◌∙◌, subst, Bool, ltb, if_cases, List, [], ◌∷◌,
  Option, none, some, All, All-append, inl, inr, arith,
}
use network_proj.Net.{Addr, exit, OnDone}
use network_proj.Tcpd.Message.{Message, buf_len}
use network_proj.Tcpd.State.{ConnectedSocket, Tcpd, Output, reply, sendto, find_connected}
use network_proj.Tcpd.Front.{new_message, tcpd_connect, send_found, send_body, tcpd_send}
use network_proj.Tcpd.Front.Made.{sent_socket, new_message-session, new_message-seq_num}
use network_proj.Tcpd.Sender.Idle.{far, IsIdle, Stalled}
use network_proj.Tcpd.Written.{find_connected-All, update_connected-All, insert_connected-All}

module _ (k : ℕ) (before : List Message) where
  fewer_IsIdle : (n : ℕ) (c : ConnectedSocket) → IsIdle k (n + 1) c → IsIdle k n c
  fewer_IsIdle n c (inl own) = inl (own.0, own.1, own.2, own.3, omega (arith, own.4))
  fewer_IsIdle n c (inr apart) = inr apart

  fewer_all : (n : ℕ) (l : List ConnectedSocket) → All (IsIdle k (n + 1)) l → All (IsIdle k n) l
  fewer_all n [] h = tt
  fewer_all n (c ∷ l) h = (fewer_IsIdle n c h.0, fewer_all n l h.1)

  pub fewer_Stalled : (n : ℕ) (t : Tcpd) → Stalled k before (n + 1) t → Stalled k before n t
  fewer_Stalled n t h = record {
    sockets = fewer_all n t.connected_sockets h.sockets;
    posts = h.posts;
  }

  sent_socket-IsIdle :
      (n len : ℕ) (buf : List ℕ) (fresh : Message) (c : ConnectedSocket)
      → IsIdle k (n + 1) c
      → IsIdle k n (sent_socket c fresh len buf)
  sent_socket-IsIdle n len buf fresh c (inl own) = inl (
    own.0,
    own.1,
    All-append (λ m. far ≤ m.seq_num) c.pending_packages (new_message c fresh len buf ∷ []) own.2
        (subst (λ q. far ≤ q) (sym (new_message-seq_num c fresh len buf)) own.3, tt),
    omega (arith, own.3, own.4),
    omega (arith, own.3, own.4),
  )
  sent_socket-IsIdle n len buf fresh c (inr apart) = inr (
    apart.0,
    apart.1,
    All-append (λ m. m.session ≢ k) c.pending_packages (new_message c fresh len buf ∷ []) apart.2
        (λ own. apart.0 (sym (new_message-session c fresh len buf) ∙ own), tt),
  )

  module _ (sends : Output → Bool) (n : ℕ) (t : Tcpd) (h : Stalled k before (n + 1) t) where
    sent_Stalled :
        (from : Addr) (fd len : ℕ) (buf : List ℕ) (fresh : Message) (o : Option ConnectedSocket)
        → find_connected fd t.connected_sockets ≡ o
        → OnDone (Stalled k before n) (send_found sends from len buf fresh o t)
    unfolding send_found sendto
    sent_Stalled from fd len buf fresh none found = tt
    sent_Stalled from fd len buf fresh (some c) found =
        if_cases (OnDone (Stalled k before n)) (sends (reply from (len % 2 ^ 32))) _ (exit 4)
          (λ went. record {
            sockets =
                update_connected-All (IsIdle k n) (sent_socket c fresh len buf) t.connected_sockets
                  (sent_socket-IsIdle n len buf fresh c (
                    find_connected-All (IsIdle k (n + 1)) fd c t.connected_sockets found h.sockets))
                  (fewer_all n t.connected_sockets h.sockets);
            posts = h.posts;
          })
          (λ failed. tt)

    body_Stalled :
        (from : Addr) (fd len : ℕ) (buf : Option (List ℕ)) (fresh : Message)
        → OnDone (Stalled k before n) (send_body sends from fd len buf fresh t)
    unfolding send_body
    body_Stalled from fd len none fresh = tt
    body_Stalled from fd len (some buf) fresh =
        sent_Stalled from fd len buf fresh (find_connected fd t.connected_sockets) refl

    pub tcpd_send-Stalled :
        (from : Addr) (args : Option (ℕ × ℕ)) (buf : Option (List ℕ)) (fresh : Message)
        → OnDone (Stalled k before n) (tcpd_send sends from args buf fresh t)
    unfolding tcpd_send
    tcpd_send-Stalled from none buf fresh = tt
    tcpd_send-Stalled from (some (fd, len)) buf fresh =
        if_cases (OnDone (Stalled k before n)) (ltb buf_len len) (exit 5) _ (λ long. tt)
          (λ short. body_Stalled from fd len buf fresh)

    pub tcpd_connect-Stalled :
        (from : Addr) (args : Option (ℕ × Addr)) (rand : ℕ)
        → rand ≢ k
        → OnDone (Stalled k before n) (tcpd_connect sends from args rand t)
    unfolding tcpd_connect sendto
    tcpd_connect-Stalled from none rand new = tt
    tcpd_connect-Stalled from (some (fd, addr)) rand new =
        if_cases (OnDone (Stalled k before n)) (sends (reply from 0)) _ (exit 4)
          (λ went. record {
            sockets =
                insert_connected-All (IsIdle k n) _ t.connected_sockets (inr (new, tt, tt))
                  (fewer_all n t.connected_sockets h.sockets);
            posts = h.posts;
          })
          (λ failed. tt)
