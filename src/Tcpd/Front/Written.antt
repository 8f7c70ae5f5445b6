-- ===== src/Tcpd/Front/Written.antt =====
-- CONNECT and SEND: a SEND on the descriptor of the session makes one more package of it.
use network_proj.Prelude.{
  ℕ, ◌+◌, ◌%◌, ◌^◌, ◌≤◌, ◌<◌, ◌≡◌, ◌≢◌, inl, inr, Bool-cases, refl, sym, ap, ◌∙◌, subst, Bool,
  false, ltb, ◌==◌, if◌then◌else◌, if_cases, List, [], ◌∷◌, ◌++◌, Option, none, some, All,
  All-append, arith, length, take, get_elem?, length-append,
}
use mathlib.Core.List.{append-nil}
use network_proj.Net.{Addr, exit, OnDone}
use network_proj.Tcpd.Message.{Message, buf_len}
use network_proj.Tcpd.State.{
  ConnectedSocket, Tcpd, Output, reply, sendto, posted, find_connected, update_connected,
}
use network_proj.Tcpd.Front.{new_message, tcpd_connect, send_found, send_body, tcpd_send}
use network_proj.Tcpd.Receiver.Fill.{payload}
use network_proj.Tcpd.Sender.Count.{DistinctFds}
use network_proj.Tcpd.Written.{
  IsMade, Knows, Wrote, get_elem?-last, All-IsMade, find_connected-All, update_connected-All,
  insert_connected-All,
}
use network_proj.Tcpd.Front.Made.{
  added_buffer, sent_socket, new_message-payload, new_message-sized, new_message-session,
  new_message-seq_num,
}

module _ (k f : ℕ) (made : List (List ℕ)) where
  -- Another buffer, and the sockets that are not of the session.
  others_Know :
      (x : List ℕ) (l : List ConnectedSocket)
      → find_connected f l ≡ none
      → All (Knows k f made) l
      → All (Knows k f (made ++ x ∷ [])) l
  unfolding find_connected
  others_Know x [] e h = tt
  others_Know x (d ∷ l) e h = (
    (
      λ own. absurd (apart ((h.0.0 own).0)),
      All-IsMade k made (x ∷ []) d.packages h.0.1,
      All-IsMade k made (x ∷ []) d.pending_packages h.0.2,
    ),
    others_Know x l (ground arith) h.1,
  )
    where
      apart : d.socket_fd ≢ f
      apart = ground arith

  updated_Know :
      (x : List ℕ) (new : ConnectedSocket) (l : List ConnectedSocket)
      → new.socket_fd ≡ f
      → DistinctFds l
      → Knows k f (made ++ x ∷ []) new
      → All (Knows k f made) l
      → All (Knows k f (made ++ x ∷ [])) (update_connected new l)
  unfolding update_connected
  updated_Know x new [] e d n h = tt
  updated_Know x new (y ∷ l) e d n h =
      if_cases (All (Knows k f (made ++ x ∷ []))) (y.socket_fd == new.socket_fd) _ _
        (λ same.
          let at : y.socket_fd ≡ f = ground arith in
          (n, others_Know x l (subst (λ q. find_connected q l ≡ none) at d.0) h.1))
        (λ apart. (
          (
            λ own. absurd (differ apart (h.0.0 own).0),
            All-IsMade k made (x ∷ []) y.packages h.0.1,
            All-IsMade k made (x ∷ []) y.pending_packages h.0.2,
          ),
          updated_Know x new l e d.1 n h.1,
        ))
    where
      differ : (y.socket_fd == new.socket_fd) ≡ false → y.socket_fd ≢ f
      differ apart same = ground arith

  pub tcpd_connect-Wrote :
      (sends : Output → Bool) (from : Addr) (args : Option (ℕ × Addr)) (rand : ℕ) (t : Tcpd)
      → rand ≢ k
      → Wrote k f made t
      → OnDone (Wrote k f made) (tcpd_connect sends from args rand t)
  unfolding tcpd_connect sendto
  tcpd_connect-Wrote sends from none rand t new h = tt
  tcpd_connect-Wrote sends from (some (fd, addr)) rand t new h =
      if_cases (OnDone (Wrote k f made)) (sends (reply from 0)) _ (exit 4)
        (λ went. record {
          sockets =
              insert_connected-All (Knows k f made) _ t.connected_sockets
                (λ own. absurd (new own), tt, tt) h.sockets;
          posts = h.posts;
        })
        (λ failed. tt)

  -- The struct after a SEND, where the session is that of the socket and where it is not.
  module _ (c : ConnectedSocket) (fresh : Message) (len : ℕ) (buf : List ℕ)
      (filled : len ≤ length buf) (known : Knows k f made c) where
    sent_Own :
        c.session ≡ k
        → length (made ++ take len buf ∷ []) < 2 ^ 32
        → Knows k f (made ++ take len buf ∷ []) (sent_socket c fresh len buf)
    sent_Own own room = (
      λ same. ((known.0 own).0, next),
      All-IsMade k made (take len buf ∷ []) c.packages known.1,
      All-append (IsMade k (made ++ take len buf ∷ [])) c.pending_packages
          (new_message c fresh len buf ∷ [])
          (All-IsMade k made (take len buf ∷ []) c.pending_packages known.2)
          (λ same. (at, new_message-sized c fresh len buf filled), tt),
    )
      where
        base : c.base ≡ length made
        base = (known.0 own).1

        grown : length (made ++ take len buf ∷ []) ≡ length made + 1
        grown = length-append made (take len buf ∷ [])

        next : (c.base + 1) % 2 ^ 32 ≡ length (made ++ take len buf ∷ [])
        next = omega (arith, base, grown)

        at :
            get_elem? (made ++ take len buf ∷ []) (new_message c fresh len buf).seq_num
            ≡ some (payload (new_message c fresh len buf))
        at =
            ap (get_elem? (made ++ take len buf ∷ [])) (new_message-seq_num c fresh len buf ∙ base)
            ∙ get_elem?-last made (take len buf)
            ∙ ap some (sym (new_message-payload c fresh len buf filled))

    sent_Other : c.session ≢ k → Knows k f made (sent_socket c fresh len buf)
    sent_Other other = (
      λ own. absurd (other own),
      known.1,
      All-append (IsMade k made) c.pending_packages (new_message c fresh len buf ∷ []) known.2
          (λ own. absurd (other (sym (new_message-session c fresh len buf) ∙ own)), tt),
    )

  -- The tables after a SEND.
  sent_Knows :
      (len : ℕ) (buf : List ℕ) (fresh : Message) (c : ConnectedSocket) (l : List ConnectedSocket)
      (posts : List Message)
      → len ≤ length buf
      → Knows k f made c
      → DistinctFds l
      → length (made ++ added_buffer k len buf (some c)) < 2 ^ 32
      → All (Knows k f made) l
      → All (IsMade k made) posts
      → All
          (Knows k f (made ++ added_buffer k len buf (some c)))
          (update_connected (sent_socket c fresh len buf) l)
        × All (IsMade k (made ++ added_buffer k len buf (some c))) posts
  unfolding added_buffer
  sent_Knows len buf fresh c l posts filled known d room h p = elim (Bool-cases (c.session == k)) [
    | inl same ↦
        let own : c.session ≡ k = ground arith in
        rw same (
          updated_Know (take len buf) (sent_socket c fresh len buf) l (known.0 own).0 d
              (sent_Own c fresh len buf filled known own (subst Short (ap buffers same) room)) h,
          All-IsMade k made (take len buf ∷ []) posts p,
        )
    | inr apart ↦
        let other : c.session ≢ k = ground arith in
        rw (apart, append-nil)
          (
            update_connected-All (Knows k f made) (sent_socket c fresh len buf) l
                (sent_Other c fresh len buf filled known other) h,
            p,
          )
  ]
    where
      Short : List (List ℕ) → Type 0
      Short b = length (made ++ b) < 2 ^ 32

      buffers : Bool → List (List ℕ)
      buffers b = if b then take len buf ∷ [] else []

  sent_Wrote :
      (sends : Output → Bool) (from : Addr) (len : ℕ) (buf : List ℕ) (fresh : Message)
      (o : Option ConnectedSocket) (fd : ℕ) (t : Tcpd)
      → len ≤ length buf
      → find_connected fd t.connected_sockets ≡ o
      → DistinctFds t.connected_sockets
      → length (made ++ added_buffer k len buf o) < 2 ^ 32
      → Wrote k f made t
      → OnDone
          (Wrote k f (made ++ added_buffer k len buf o))
          (send_found sends from len buf fresh o t)
  unfolding send_found sendto
  sent_Wrote sends from len buf fresh none fd t filled found d room h = tt
  sent_Wrote sends from len buf fresh (some c) fd t filled found d room h =
      if_cases (OnDone (Wrote k f (made ++ added_buffer k len buf (some c))))
        (sends (reply from (len % 2 ^ 32))) _ (exit 4)
        (λ went. record { sockets = after.0; posts = after.1 }) (λ failed. tt)
    where
      after :
          All
            (Knows k f (made ++ added_buffer k len buf (some c)))
            (update_connected (sent_socket c fresh len buf) t.connected_sockets)
          × All (IsMade k (made ++ added_buffer k len buf (some c))) (posted t.sent)
      after =
          sent_Knows len buf fresh c t.connected_sockets (posted t.sent) filled
            (find_connected-All (Knows k f made) fd c t.connected_sockets found h.sockets) d room
            h.sockets h.posts

  pub tcpd_send-Wrote :
      (sends : Output → Bool) (from : Addr) (fd len : ℕ) (buf : List ℕ) (fresh : Message) (t : Tcpd)
      → len ≤ length buf
      → DistinctFds t.connected_sockets
      → length (made ++ added_buffer k len buf (find_connected fd t.connected_sockets)) < 2 ^ 32
      → Wrote k f made t
      → OnDone
          (Wrote k f (made ++ added_buffer k len buf (find_connected fd t.connected_sockets)))
          (tcpd_send sends from (some (fd, len)) (some buf) fresh t)
  unfolding tcpd_send send_body
  tcpd_send-Wrote sends from fd len buf fresh t filled d room h =
      if_cases (OnDone _) (ltb buf_len len) (exit 5) _ (λ long. tt)
        (λ short.
          sent_Wrote sends from len buf fresh (find_connected fd t.connected_sockets) fd t filled
            refl d room h)

-- A SEND whose arguments or bytes cannot be read ends the process.
module _ (P : Tcpd → Type 0) (sends : Output → Bool) (from : Addr) (fresh : Message)
    (t : Tcpd) where
  pub tcpd_send_no_arguments :
      (buf : Option (List ℕ)) → OnDone P (tcpd_send sends from none buf fresh t)
  unfolding tcpd_send
  tcpd_send_no_arguments buf = tt

  pub tcpd_send_no_bytes :
      (fd len : ℕ) → OnDone P (tcpd_send sends from (some (fd, len)) none fresh t)
  unfolding tcpd_send send_body
  tcpd_send_no_bytes fd len =
      if_cases (OnDone P) (ltb buf_len len) (exit 5) (exit 4) (λ long. tt) (λ short. tt)
