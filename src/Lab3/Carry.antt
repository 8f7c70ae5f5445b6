-- ===== src/Lab3/Carry.antt =====
-- What two daemons of Lab3/tcpd.c carry.
use network_proj.Prelude.{
  drop-drop, ℕ, ◌+◌, ◌≤◌, ◌<◌, ◌^◌, ◌≡◌, refl, ap, ◌∙◌, true, List, [], ◌∷◌, ◌++◌, Option, none,
  some, arith, leb, length, take, drop, take_append_left, length-drop, length-append, take-length,
}
use network_proj.Net.{done}
use network_proj.Tcpd.Message.{bytes}
use network_proj.Lab3.{
  Served, buf_len, overwrite, receive, wrap, reply, if_fits, send_result, to_peer, tcpd_send,
}
use network_proj.Lab3.Memory.{drop_append_exact, take_most}
use network_proj.Lab3.Unwrap.{body_of}
use network_proj.Lab3.Answer.{with_arguments, read_two_arguments, if_fits-within, tcpd_recv-body_of}
use network_proj.Tcpudp.{command, recv_name, send_name}
use network_proj.Lab3.Loop.{System, served, round, round_recv, round_send}

le_leb : (a b : ℕ) → a ≤ b → leb a b ≡ true
le_leb a b h = ground arith

overwritten : (content memory : List ℕ) → take (length content) (overwrite content memory) ≡ content
unfolding overwrite
overwritten content memory =
    take_append_left (length content) content (drop (length content) memory) refl

-- Every `sendto` succeeds.
abbrev pub reliable : System → System
reliable o = record o { sends = λ a. true; posts = λ m. true }

tcpd_send-sent :
    (peer_of : ℕ → Option (List ℕ)) (peer stack buf content : List ℕ) (sockfd : ℕ)
    → sockfd < 2 ^ 32
    → length content ≤ 1000
    → peer_of sockfd ≡ some peer
    → (s : Served) × (tcpd_send
          (λ a. true)
          (λ m. true)
          peer_of
          stack
          (some (bytes 4 sockfd))
          (some (bytes 8 (length content)))
          (some content)
          buf
        ≡ done s)
      × (s.to_troll ≡ wrap peer content stack ∷ [])
unfolding tcpd_send to_peer receive send_result reply
tcpd_send-sent peer_of peer stack buf content sockfd h k e =
    let b = overwrite content (with_arguments sockfd (length content) buf) in
    (
      record { answer = bytes 4 1016; to_troll = wrap peer content stack ∷ []; buf = b },
      read_two_arguments sockfd (length content) buf
            (λ fd len b.
              if_fits (λ a. true) len
                (to_peer (λ a. true) (λ m. true) len stack (peer_of fd) (some content) b))
            h k
          ∙ if_fits-within (λ a. true) (length content) _ k
          ∙ rw
              (
                e,
                take-length content,
                overwritten content (with_arguments sockfd (length content) buf),
              )
              refl,
      refl,
    )

length-overwrite :
    (content memory : List ℕ)
    → length content ≤ length memory
    → length (overwrite content memory) ≡ length memory
unfolding overwrite
length-overwrite content memory h = omega (
  arith,
  length-append content (drop (length content) memory),
  length-drop (length content) memory,
)

behind_header :
    (peer content stack : List ℕ)
    → length peer ≡ 16
    → drop 16 (wrap peer content stack) ≡ overwrite content (drop 16 stack)
unfolding wrap
behind_header peer content stack p =
    drop_append_exact 16 (overwrite (0 ∷ 2 ∷ []) peer) (overwrite content (drop 16 stack))
      (omega (arith, length-overwrite (0 ∷ 2 ∷ []) peer (omega (p, arith)), p))

body_of-whole :
    (n : ℕ) (stack header body : List ℕ)
    → length header ≡ 16
    → length body ≡ 1000
    → body_of n stack (header ++ body) ≡ take n body
body_of-whole n stack header body q r =
    let size = length-append header body in
    rw
      (
        le_leb 16 (length (header ++ body)) (omega (size, q, r, arith)),
        take_most (16 + buf_len) (header ++ body) (omega (size, q, r, arith)),
        drop_append_exact 16 header body (omega (q, arith)),
      )
      refl

-- What arrives, the troll having put another header in its place.
body_of-wrap :
    (n : ℕ) (peer header content stack stack' : List ℕ)
    → length peer ≡ 16
    → length header ≡ 16
    → length stack ≡ 1016
    → length content ≤ 1000
    → body_of n stack' (header ++ drop 16 (wrap peer content stack))
      ≡ take n (content ++ drop (16 + length content) stack)
body_of-wrap n peer header content stack stack' p q r k =
    let body = overwrite content (drop 16 stack) in
    let rest = length-drop 16 stack in
    let size = length-overwrite content (drop 16 stack) (omega (rest, r, k, arith)) in
    ap (λ b. body_of n stack' (header ++ b)) (behind_header peer content stack p)
    ∙ body_of-whole n stack' header body q (omega (size, rest, r, arith))
    ∙ unfold overwrite in ap (λ b. take n (content ++ b)) (drop-drop 16 (length content) stack)

-- What is written with SEND at one daemon and arrives at another, the troll having replaced the
-- header, is what RECV answers there: as many of its bytes as are asked for. Past its end come
-- bytes of the memory that the sender's struct was put into. Every `sendto` succeeds, descriptors
-- fit 32 bits, the buffer and the request have at most BUF_LEN bytes, and the struct 1016.
pub round_carries :
    (o o' : System) (peer header content buf buf' : List ℕ) (sockfd sockfd' n : ℕ)
    → sockfd < 2 ^ 32
    → sockfd' < 2 ^ 32
    → o.peer_of sockfd ≡ some peer
    → length peer ≡ 16
    → length header ≡ 16
    → length o.stack ≡ 1016
    → length content ≤ 1000
    → n ≤ 1000
    → (s r : Served) × (m : List ℕ) × (round
          (reliable o)
          (some (command send_name))
          (record {
            first = some (bytes 4 sockfd);
            second = some (bytes 8 (length content));
            third = some content;
          })
          buf
        ≡ done (some s))
      × (s.to_troll ≡ m ∷ [])
      × (round
            (record (reliable o') { arrives = λ fd. some (header ++ drop 16 m) })
            (some (command recv_name))
            (record { first = some (bytes 4 sockfd'); second = some (bytes 8 n); third = none })
            buf'
          ≡ done (some r))
      × (r.answer ≡ take n (content ++ drop (16 + length content) o.stack))
round_carries o o' peer header content buf buf' sockfd sockfd' n h h' e p q r k k' =
    let (s, sends, posted) = tcpd_send-sent o.peer_of peer o.stack buf content sockfd h k e in
    let m = wrap peer content o.stack in
    let d = header ++ drop 16 m in
    let (b, answers) =
      tcpd_recv-body_of (λ a. true) (λ fd. some d) o'.stack buf' d sockfd' n h' k' refl in
    (
      s,
      record { answer = body_of n o'.stack d; to_troll = []; buf = b },
      m,
      round_send (reliable o) _ buf ∙ ap served sends,
      posted,
      round_recv (record (reliable o') { arrives = λ fd. some d }) _ buf' ∙ ap served answers,
      body_of-wrap n peer header content o.stack o'.stack p q r k,
    )
