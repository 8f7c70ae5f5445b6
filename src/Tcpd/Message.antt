-- ===== src/Tcpd/Message.antt =====
-- Proj1/Header.h: the packages that travel between two daemons, their bytes in memory, and the
-- checksum over them. The layout is that of x86-64: little endian, `size_t` at a multiple of 8.
use network_proj.Prelude.{ℕ, zero, suc, ◌/◌, ◌%◌, List, [], ◌∷◌, ◌++◌, Bool, ◌==◌}
use network_proj.Net.{Addr}
use network_proj.Crc32.{crc32}

-- BUF_LEN, MAX_BUFFER_PACKAGES, and AF_INET in network order.
abbrev pub buf_len : ℕ
buf_len = 1000

abbrev pub max_buffer_packages : ℕ
max_buffer_packages = 64

abbrev pub af_inet : ℕ
af_inet = 0x200

-- `struct TrollMessageStruct`. `padding` stands for the four bytes between `SeqNum` and `len`.
pub record Message : Type 0 where
  pub header : Addr
  pub check_sum : ℕ
  pub session : ℕ
  pub seq_num : ℕ
  pub padding : List ℕ
  pub len : ℕ
  pub body : List ℕ

-- `struct TrollAckStruct`
pub record Ack : Type 0 where
  pub header : Addr
  pub check_sum : ℕ
  pub session : ℕ
  pub seq_num : ℕ

-- `n` bytes of a number, lowest first.
unfoldable pub bytes : ℕ → ℕ → List ℕ
bytes zero x = []
bytes (suc n) x = x % 256 ∷ bytes n (x / 256)

-- The memory of a message from `CheckSumOffset` on.
unfoldable pub summed : Message → List ℕ
summed m = bytes 4 m.session ++ (bytes 4 m.seq_num ++ (m.padding ++ (bytes 8 m.len ++ m.body)))

-- `CHECKSUM_ALGORITHM(0, m + CheckSumOffset, sizeof(*m) - CheckSumOffset)`
unfoldable pub message_check_sum : Message → ℕ
message_check_sum m = crc32 0 (summed m)

unfoldable pub ack_summed : Ack → List ℕ
ack_summed a = bytes 4 a.session ++ bytes 4 a.seq_num

unfoldable pub ack_check_sum : Ack → ℕ
ack_check_sum a = crc32 0 (ack_summed a)

-- The test on a package that has arrived: `CheckSum != NowTrollMessage->CheckSum` is "garbled".
unfoldable pub is_intact : Message → Bool
is_intact m = message_check_sum m == m.check_sum

unfoldable pub is_ack_intact : Ack → Bool
is_ack_intact a = ack_check_sum a == a.check_sum
