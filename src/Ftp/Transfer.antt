-- ===== src/Ftp/Transfer.antt =====
-- The server receives what the client sends.
use network_proj.Prelude.{
  ℕ, bit_or, zero, suc, ◌+◌, ◌*◌, ◌/◌, ◌%◌, ◌^◌, ◌≤◌, ◌<◌, ◌≡◌, refl, sym, ap, ap₂, ◌∙◌, Bool, true,
  List, [], ◌∷◌, ◌++◌, arith, length, take, drop, replicate, All, length-take, length-append,
  length-replicate,
}
use network_proj.Net.{Addr}
use network_proj.Tcpd.Message.{Message, buf_len}
use network_proj.Tcpd.State.{ConnectedSocket, AcceptedSocket}
use network_proj.Tcpd.Front.{new_message}
use network_proj.Tcpd.Receiver.{new_accepted}
use network_proj.Tcpd.Receiver.Integrity.{payload-new_message}
use network_proj.Ftp.{
  Sent, finished, exited, unfinished, size_bytes, name_bytes, send_loop, send_file, read_size,
  c_string, Received, failed, returned, waits, stored, exits, stays, served, recv_loop, recv_file,
}
use network_proj.Ftp.Service.{daemon_recv, Brings, Ready, Ready-Next}
use network_proj.Ftp.Loops.{Feeds, Carries, send_loop-Carries}
use network_proj.Ftp.Fields.{bit_or_fields}

read_size-size_bytes : (n : ℕ) → n < 2 ^ 32 → read_size (size_bytes n) ≡ n
unfolding read_size size_bytes
read_size-size_bytes n h = third
  where
    b0 : ℕ
    b0 = n / 2 ^ 24 % 256

    b1 : ℕ
    b1 = n / 2 ^ 16 % 256

    b2 : ℕ
    b2 = n / 2 ^ 8 % 256

    first : bit_or (b0 * 2 ^ 24) (b1 * 2 ^ 16) ≡ (b0 * 2 ^ 8 + b1) * 2 ^ 16
    first = bit_or_fields 24 b0 (b1 * 2 ^ 16) (omega arith) ∙ omega arith

    second :
        bit_or (bit_or (b0 * 2 ^ 24) (b1 * 2 ^ 16)) (b2 * 2 ^ 8)
        ≡ ((b0 * 2 ^ 8 + b1) * 2 ^ 8 + b2) * 2 ^ 8
    second =
        ap (λ t. bit_or t (b2 * 2 ^ 8)) first
        ∙ bit_or_fields 16 (b0 * 2 ^ 8 + b1) (b2 * 2 ^ 8) (omega arith)
        ∙ omega arith

    third : bit_or (bit_or (bit_or (b0 * 2 ^ 24) (b1 * 2 ^ 16)) (b2 * 2 ^ 8)) (n % 256) ≡ n
    third =
        ap (λ t. bit_or t (n % 256)) second
        ∙ bit_or_fields 8 ((b0 * 2 ^ 8 + b1) * 2 ^ 8 + b2) (n % 256) (omega arith)
        ∙ omega arith

string_of :
    (n m : ℕ) (name : List ℕ)
    → All (λ b. 0 < b) name
    → length name ≤ n
    → c_string (take n (name ++ replicate m 0)) ≡ name
unfolding c_string
string_of zero m [] nonzero short = refl
string_of (suc n) zero [] nonzero short = refl
string_of (suc n) (suc m) [] nonzero short = refl
string_of zero m (x ∷ name) nonzero short = absurd (omega arith)
string_of (suc n) m (x ∷ name) nonzero short =
    ground (arith, nonzero.0, string_of n m name nonzero.1 (omega arith))

name_lem :
    (name : List ℕ) → All (λ b. 0 < b) name → length name ≤ 20 → c_string (name_bytes name) ≡ name
unfolding name_bytes
name_lem name nonzero short = string_of 20 buf_len name nonzero short

length-name_bytes : (name : List ℕ) → length (name_bytes name) ≡ 20
unfolding name_bytes
length-name_bytes name = omega (
  arith,
  length-take 20 (name ++ replicate buf_len 0),
  length-append name (replicate buf_len 0),
  length-replicate {A = ℕ} buf_len 0,
)

recv_file_steps :
    {S : Type 0} (recv : ℕ → S → Received S) (fuel : ℕ) (s s' s'' : S) (size name : List ℕ)
    → recv 4 s ≡ returned size s'
    → recv 20 s' ≡ returned name s''
    → recv_file recv fuel s ≡ served (c_string name) (recv_loop recv fuel (read_size size) s'')
unfolding recv_file
recv_file_steps recv fuel s s' s'' size name e f =
    ap
      (λ o. elim o [
        | waits ↦ stays
        | failed t ↦ exits 1
        | returned size t ↦ elim (recv 20 t) [
          | waits ↦ stays
          | failed u ↦ exits 1
          | returned name u ↦ served (c_string name) (recv_loop recv fuel (read_size size) u)
        ]
      ])
      e
    ∙ ap
        (λ o. elim o [
          | waits ↦ stays
          | failed u ↦ exits 1
          | returned name u ↦ served (c_string name) (recv_loop recv fuel (read_size size) u)
        ])
        f

-- The packages that SEND makes of some buffers, from a number on, in the memory `fresh`.
abbrev pub made : ConnectedSocket → Message → ℕ → List (List ℕ) → List Message
made c fresh n [] = []
made c fresh n (chunk ∷ chunks) =
    new_message (record c { base = n }) fresh (length chunk) chunk ∷ made c fresh (n + 1) chunks

-- The connection at the server's daemon, when they have come and the server has accepted it.
abbrev pub arrived : ConnectedSocket → Message → List (List ℕ) → AcceptedSocket
arrived c fresh chunks = record (new_accepted 0 c.session) { packages = made c fresh 0 chunks }

sized_message :
    (c : ConnectedSocket) (fresh : Message) (chunk : List ℕ)
    → ((new_message c fresh (length chunk) chunk).seq_num ≡ c.base)
      × ((new_message c fresh (length chunk) chunk).len ≡ length chunk)
      × (length chunk ≤ length (new_message c fresh (length chunk) chunk).body)
unfolding new_message
sized_message c fresh chunk = (
  refl,
  refl,
  omega (
    arith,
    length-append (take (length chunk) chunk) (drop (length chunk) fresh.body),
    length-take (length chunk) chunk,
  ),
)

made-Brings :
    (here : Addr) (c : ConnectedSocket) (fresh : Message) (n : ℕ) (chunks : List (List ℕ))
    → All (λ c. 0 < length c) chunks
    → Brings here n chunks (made c fresh n chunks)
made-Brings here c fresh n [] h = tt
made-Brings here c fresh n (chunk ∷ chunks) h =
    let (seq, len, body) = sized_message (record c { base = n }) fresh chunk in
    (
      (
        seq,
        omega (len, h.0, arith),
        omega (len, body, arith),
        payload-new_message (record c { base = n }) fresh (length chunk) chunk refl,
      ),
      made-Brings here c fresh (n + 1) chunks h.1,
    )

arrived-Ready :
    (here : Addr) (c : ConnectedSocket) (fresh : Message) (chunks : List (List ℕ))
    → All (λ c. 0 < length c) chunks
    → length chunks < 2 ^ 32
    → Ready here chunks (arrived c fresh chunks)
arrived-Ready here c fresh chunks h small = record {
  brings = made-Brings here c fresh 0 chunks h;
  below = omega (small, arith);
  buffer = refl;
  wanted = refl;
}

received :
    (here : Addr) (g : ℕ) (name file : List ℕ) (chunks : List (List ℕ)) (s : AcceptedSocket)
    → All (λ b. 0 < b) name
    → length name ≤ 20
    → length file < 2 ^ 32
    → Feeds here g (length file) file chunks
    → Ready here (size_bytes (length file) ∷ name_bytes name ∷ chunks) s
    → (s' : AcceptedSocket) × (recv_file (daemon_recv here) g s ≡ stored name file s')
      × Ready here [] s'
received here g name file chunks s nonzero short small feeds r =
    let four : 4 ≡ length (size_bytes (length file)) = unfold size_bytes in refl in
    let first =
      Ready-Next here 4 (size_bytes (length file)) (name_bytes name ∷ chunks) s r four (omega arith)
        (omega arith) in
    let second =
      Ready-Next here 20 (name_bytes name) chunks first.after first.ready
        (sym (length-name_bytes name)) (omega arith) (omega arith) in
    let (s', loop, ready) = feeds second.after second.ready in
    (
      s',
      recv_file_steps (daemon_recv here) g s first.after second.after (size_bytes (length file))
            (name_bytes name) first.returns second.returns
          ∙ ap₂ (λ n k. served n (recv_loop (daemon_recv here) g k second.after))
              (name_lem name nonzero short) (read_size-size_bytes (length file) small)
          ∙ ap (served name) loop,
      ready,
    )

-- The server stores every file of less than 4 GiB and two bytes as it is. If every SEND, `fopen`
-- and `fwrite` succeeds and `stat` reports the length of the file, the client's loop ends. When the
-- packages that the daemon makes of its buffers have come to the server's daemon, numbered from 0
-- on, the server's calls of RECV, as this daemon answers them, end too, and the server stores the
-- file under the client's name, where this has no zero byte and 20 bytes at most, with its
-- contents. The connection then holds no more bytes. As many rounds as the file has bytes are
-- enough for the server's loop.
pub recv_file-send_file :
    (sends : List ℕ → Bool) (here : Addr) (c : ConnectedSocket) (fresh : Message) (g : ℕ)
    (name file : List ℕ)
    → ((l : List ℕ) → sends l ≡ true)
    → All (λ b. 0 < b) name
    → length name ≤ 20
    → length file + 2 < 2 ^ 32
    → length file ≤ g
    → (chunks : List (List ℕ)) × (s' : AcceptedSocket) × (send_file sends
          (length file)
          name
          (length file)
          file
        ≡ finished chunks)
      × (recv_file (daemon_recv here) g (arrived c fresh chunks) ≡ stored name file s')
      × Ready here [] s'
recv_file-send_file sends here c fresh g name file ok nonzero short small enough =
    whole (send_loop sends (length file) (length file) file) refl
      (send_loop-Carries sends ok here (length file) g (length file) file refl (omega arith) enough)
  where
    whole :
        (s : Sent)
        → send_loop sends (length file) (length file) file ≡ s
        → Carries here g (length file) file s
        → (chunks : List (List ℕ)) × (s' : AcceptedSocket) × (send_file sends
              (length file)
              name
              (length file)
              file
            ≡ finished chunks)
          × (recv_file (daemon_recv here) g (arrived c fresh chunks) ≡ stored name file s')
          × Ready here [] s'
    whole (finished chunks) e (nonempty, few, feeds) =
        let all = size_bytes (length file) ∷ name_bytes name ∷ chunks in
        let four : 0 < length (size_bytes (length file)) = unfold size_bytes in omega arith in
        let twenty : 0 < length (name_bytes name) = omega (length-name_bytes name, arith) in
        let ready =
          arrived-Ready here c fresh all (four, (twenty, nonempty)) (omega (few, small, arith)) in
        let (s', stores, empty) =
          received here g name file chunks (arrived c fresh all) nonzero short
            (omega (small, arith)) feeds ready in
        (
          all,
          s',
          unfold send_file in rw (ok (size_bytes (length file)), ok (name_bytes name), e) refl,
          stores,
          empty,
        )
    whole (exited code) e h = absurd h
    whole unfinished e h = absurd h
