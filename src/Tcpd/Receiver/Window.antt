-- ===== src/Tcpd/Receiver/Window.antt =====
-- The window of packages that a receiving socket keeps: `RecvData` stores each package once, in the
-- order of the numbers, whatever the order in which the packages arrive.
use network_proj.Prelude.{ℕ, ◌+◌, ◌≤◌, ◌<◌, ◌≡◌, ◌≢◌, refl, false, ◌||◌, List, [], ◌∷◌, ◌==◌, arith}
use network_proj.Tcpd.Message.{Message}
use network_proj.Tcpd.State.{AcceptedSocket}
use network_proj.Tcpd.Receiver.{has_seq, insert_package, store_package}

-- The numbers rise along the list, from `lo` on.
abbrev pub Rising : ℕ → List Message → Type 0
Rising lo [] = Unit {0}
Rising lo (m ∷ l) = (lo ≤ m.seq_num) × Rising (m.seq_num + 1) l

abbrev pub IsWindow : AcceptedSocket → Type 0
IsWindow s = Rising s.base s.packages

Rising-mono : (lo hi : ℕ) (l : List Message) → lo ≤ hi → Rising hi l → Rising lo l
Rising-mono lo hi [] h r = tt
Rising-mono lo hi (m ∷ l) h r = (omega arith, r.1)

pub insert_package-Rising :
    (lo : ℕ) (new : Message) (l : List Message)
    → lo ≤ new.seq_num
    → has_seq new.seq_num l ≡ false
    → Rising lo l
    → Rising lo (insert_package new l)
unfolding has_seq insert_package
insert_package-Rising lo new [] h free r = (h, tt)
insert_package-Rising lo new (m ∷ l) h free r = ground (
  arith,
  insert_package-Rising (m.seq_num + 1) new l,
  Rising-mono (new.seq_num + 1) (m.seq_num + 1) l,
)

-- A window stays a window when a package is stored: sorted by number, without two of one number,
-- and with none below `Base`.
pub store_package-IsWindow :
    (m : Message) (s : AcceptedSocket) → IsWindow s → IsWindow (store_package m s)
unfolding store_package
store_package-IsWindow m s w = ground (arith, insert_package-Rising s.base m s.packages)

has_seq_above : (q lo : ℕ) (l : List Message) → q < lo → Rising lo l → has_seq q l ≡ false
unfolding has_seq
has_seq_above q lo [] h r = refl
has_seq_above q lo (m ∷ l) h r = ground arith

pub has_seq-insert_package :
    (lo q : ℕ) (new : Message) (l : List Message)
    → Rising lo l
    → has_seq q (insert_package new l) ≡ (new.seq_num == q || has_seq q l)
unfolding has_seq insert_package
has_seq-insert_package lo q new [] r = ground arith
has_seq-insert_package lo q new (m ∷ l) r =
    ground
      (arith, has_seq-insert_package (m.seq_num + 1) q new l, has_seq_above q (m.seq_num + 1) l)

insert_package_comm :
    (lo : ℕ) (a b : Message) (l : List Message)
    → a.seq_num ≢ b.seq_num
    → insert_package a (insert_package b l) ≡ insert_package b (insert_package a l)
unfolding insert_package
insert_package_comm lo a b [] h = ground arith
insert_package_comm lo a b (m ∷ l) h = ground (arith, insert_package_comm lo a b l)

-- A package whose number has just been stored changes nothing, if the struct's packages are sorted
-- by number, without two of one number and with none below `Base`.
store_package_twice :
    (m : Message) (again : Message) (s : AcceptedSocket)
    → IsWindow s
    → again.seq_num ≡ m.seq_num
    → store_package again (store_package m s) ≡ store_package m s
unfolding store_package
store_package_twice m again s w e =
    ground (arith, has_seq-insert_package s.base again.seq_num m s.packages)

-- Two packages of different numbers may arrive in either order.
pub store_package_comm :
    (a b : Message) (s : AcceptedSocket)
    → IsWindow s
    → a.seq_num ≢ b.seq_num
    → store_package a (store_package b s) ≡ store_package b (store_package a s)
unfolding store_package
store_package_comm a b s w h = ground (
  arith,
  has_seq-insert_package s.base a.seq_num b s.packages,
  has_seq-insert_package s.base b.seq_num a s.packages,
  insert_package_comm s.base a b s.packages,
)
