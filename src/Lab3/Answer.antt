-- ===== src/Lab3/Answer.antt =====
-- What tcpd_RECV of Lab3/tcpd.c answers.
use network_proj.Prelude.{
  ℕ, ◌+◌, ◌≤◌, ◌<◌, ◌^◌, ◌≡◌, refl, sym, ap, ◌∙◌, Bool, false, inl, inr, List, [], Option, some,
  if◌then◌else◌, arith, Bool-cases, ltb, leb, length, take, drop,
}
use network_proj.Net.{Outcome, done, exit, ◌>>=◌}
use network_proj.Tcpd.Message.{bytes}
use network_proj.Tcpudp.{number}
use network_proj.Tcpudp.Protocol.{number-bytes}
use network_proj.Lab3.{Served, buf_len, overwrite, read_argument, reply, if_fits, unwrap, tcpd_recv}
use network_proj.Lab3.Memory.{length-bytes, after_argument, read_argument_whole}
use network_proj.Lab3.Unwrap.{copied, body_of, copied-whole, copied-short}

copied-body_of : (n : ℕ) (stack d : List ℕ) → n ≤ 1000 → copied n stack d ≡ body_of n stack d
copied-body_of n stack d k = elim (Bool-cases (leb 16 (length d))) [
  | inl whole ↦ copied-whole n stack d whole ∙ chosen whole
  | inr short ↦ copied-short n stack d k short ∙ chosen short
]
  where
    chosen :
        {b : Bool}
        → leb 16 (length d) ≡ b
        → (if b then take n (drop 16 (take (16 + buf_len) d)) else take n (drop 16 stack))
          ≡ body_of n stack d
    chosen e =
        ap (λ c. if c then take n (drop 16 (take (16 + buf_len) d)) else take n (drop 16 stack))
          (sym e)

-- `buf` after both arguments have been read into it.
abbrev pub with_arguments : ℕ → ℕ → List ℕ → List ℕ
with_arguments sockfd n buf = after_argument 8 (bytes 8 n) (after_argument 4 (bytes 4 sockfd) buf)

-- Both handlers start by reading a descriptor and a length.
pub read_two_arguments :
    (sockfd n : ℕ) (buf : List ℕ) (handle : ℕ → ℕ → List ℕ → Outcome Served)
    → sockfd < 2 ^ 32
    → n ≤ 1000
    → (read_argument 4 (some (bytes 4 sockfd)) buf >>= (λ (fd, b).
        read_argument 8 (some (bytes 8 n)) b >>= (λ (len, b'). handle (number fd) (number len) b')))
      ≡ handle sockfd n (with_arguments sockfd n buf)
read_two_arguments sockfd n buf handle h k =
    let first = read_argument_whole 4 (bytes 4 sockfd) buf (length-bytes 4 sockfd) in
    let second =
      read_argument_whole 8 (bytes 8 n) (after_argument 4 (bytes 4 sockfd) buf)
        (length-bytes 8 n) in
    rw (first, second, number-bytes 4 sockfd h, number-bytes 8 n (omega (k, arith))) refl

module _ (sends : List ℕ → Bool) where
  abbrev answered : List ℕ → List ℕ → Outcome Served
  answered body buf =
      reply sends (record { answer = body; to_troll = []; buf = overwrite body buf })

  pub if_fits-within :
      (n : ℕ) (served : Outcome Served) → n ≤ 1000 → if_fits sends n served ≡ served
  unfolding if_fits
  if_fits-within n served k = rw (fits n k) refl
    where
      fits : (n : ℕ) → n ≤ 1000 → ltb buf_len n ≡ false
      fits n k = ground arith

  -- RECV of up to BUF_LEN bytes from a socket on which a datagram arrives answers with the first of
  -- the bytes behind its header, as many as are asked for or have come; where less than a header
  -- has come, it answers with as many bytes as are asked for out of what the memory held before. If
  -- that cannot be sent the process ends with code 4.
  pub tcpd_recv-body_of :
      (arrives : ℕ → Option (List ℕ)) (stack buf d : List ℕ) (sockfd n : ℕ)
      → sockfd < 2 ^ 32
      → n ≤ 1000
      → arrives sockfd ≡ some d
      → (buf' : List ℕ) × (tcpd_recv sends arrives stack
            (some (bytes 4 sockfd))
            (some (bytes 8 n))
            buf
          ≡ (if sends (body_of n stack d)
              then done (record { answer = body_of n stack d; to_troll = []; buf = buf' })
              else exit 4))
  unfolding tcpd_recv
  tcpd_recv-body_of arrives stack buf d sockfd n h k e =
      let b = with_arguments sockfd n buf in
      (
        overwrite (body_of n stack d) b,
        read_two_arguments sockfd n buf
              (λ fd len b. if_fits sends len (unwrap sends len stack (arrives fd) b)) h k
            ∙ if_fits-within n _ k
            ∙ ap (λ a. unwrap sends n stack a b) e
            ∙ unfold unwrap reply in ap (λ body. answered body b) (copied-body_of n stack d k),
      )
