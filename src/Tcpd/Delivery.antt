-- ===== src/Tcpd/Delivery.antt =====
-- Two daemons of Proj1/tcpd.c with a network between them: what is written to a session at one end
-- and what the processes at the other end are sent.
pub mod Buffers
use mathlib.Core.List.{Sublist, flatten, append_assoc, append-nil}
use mathlib.Core.List.Sublist as Sub
use network_proj.Prelude.{
  ℕ, zero, suc, ◌+◌, ◌≤◌, ◌<◌, ◌^◌, ◌≡◌, ◌⊎◌, inl, inr, refl, sym, ap, ap₂, ◌∙◌, subst, Bool, true,
  ◌==◌, List, [], ◌∷◌, ◌++◌, Option, none, some, All, get_elem?, get_or, length, arith,
}
use network_proj.Net.{Addr, done, OnDone, OnDone-map}
use network_proj.Tcpd.Message.{Message, is_intact}
use network_proj.Tcpd.State.{AcceptedSocket, Tcpd, Output, posted}
use network_proj.Tcpd.Front.Books.{Accounts}
use network_proj.Tcpd.Receiver.Fill.{payload}
use network_proj.Tcpd.Stream.{stream, delivered, One}
use network_proj.Tcpd.Receiver.Stream.{Carries}
use network_proj.Tcpd.Receiver.Exact.{Holds, Exact, EndsPackage, Exact-Promise}
use network_proj.Tcpd.Written.{IsMade, Wrote}
use network_proj.Tcpd.Loop.{Inputs, recv, initial, run}
use network_proj.Tcpd.Loop.Fair.{FairRun, FairRun-mono}
use network_proj.Tcpd.Loop.Stream.{Honest, run_promises, run-delivered}
use network_proj.Tcpd.Delivery.Buffers.{
  IsCopy, EndsBuffer, Begins, stream-flatten, copy_Holds, copy_Carries, EndsBuffer-EndsPackage,
  One-Begins,
}
use network_proj.Tcpd.Loop.Written.{Proper, written, run-Wrote}

-- What the receiving daemon may read: the network makes up no package of session `k` that passes the
-- checksum, and the processes that `reader` tells are those that ask for bytes of the session.
pub record Relayed (reader : Addr → Bool) (k : ℕ) (sent : List Message) (i : Inputs) : Type 0 where
  pub copies :
      (fd : ℕ) (m : Message) (remote : Addr)
      → i.packages fd ≡ some (m, remote)
      → is_intact m ≡ true
      → m.session ≡ k
      → IsCopy m sent
  pub asked :
      (from : Addr) (sockfd len : ℕ)
      → i.front ≡ some (from, recv (some (sockfd, len)))
      → reader from ≡ (sockfd == k)

module _ (k : ℕ) (made : List (List ℕ)) where
  Relayed-Honest :
      (reader : Addr → Bool) (sent : List Message) (is : List Inputs)
      → All (IsMade k made) sent
      → All (Relayed reader k sent) is
      → All (Honest reader k (λ n. get_or made n []) (length made)) is
  Relayed-Honest reader sent [] h r = tt
  Relayed-Honest reader sent (i ∷ is) h r = (
    record {
      packages = λ fd m remote e intact own.
          copy_Carries k made m sent own (r.0.copies fd m remote e intact own) h;
      asked = r.0.asked;
    },
    Relayed-Honest reader sent is h r.1,
  )

all_made :
    (k f sock timer_driver_socket : ℕ) (is : List Inputs) (t s : Tcpd)
    → All (λ i. Proper k i.front) is
    → length (written k sock timer_driver_socket is t) < 2 ^ 32
    → Accounts t
    → Wrote k f [] t
    → run sock timer_driver_socket is t ≡ done s
    → Wrote k f (written k sock timer_driver_socket is t) s
all_made k f sock timer_driver_socket is t s p room a h ran =
    subst (OnDone (Wrote k f (written k sock timer_driver_socket is t))) ran
      (run-Wrote k f sock timer_driver_socket is [] t p room a h)

-- Whatever the network between two daemons loses, repeats, reorders or damages, and whatever else
-- happens at both: the bytes that the processes at one end have been sent from a session are bytes
-- that were written to the session at the other end, in the order in which they were written and
-- none twice (some may be missing). At the start no package of the session exists; fewer than
-- 2 ^ 32 buffers are written; no other session gets its number; each SEND hands over the bytes that
-- it announces; a package that passes the checksum is a copy of one that was sent; and these
-- processes and no others ask for the session's bytes.
pub run-delivers_written :
    (k f sock timer_driver_socket : ℕ) (is : List Inputs) (t s : Tcpd)
    → All (λ i. Proper k i.front) is
    → length (written k sock timer_driver_socket is t) < 2 ^ 32
    → Accounts t
    → Wrote k f [] t
    → run sock timer_driver_socket is t ≡ done s
    → (reader : Addr → Bool) (sock' timer_driver_socket' : ℕ) (js : List Inputs)
    → All (Relayed reader k (posted s.sent)) js
    → OnDone
        (λ r. Sublist (delivered reader r.sent) (flatten (written k sock timer_driver_socket is t)))
        (run sock' timer_driver_socket' js initial)
run-delivers_written k f sock timer_driver_socket is t s p room a h ran reader sock'
      timer_driver_socket' js relayed =
    subst
      (λ l.
        OnDone (λ r. Sublist (delivered reader r.sent) l)
          (run sock' timer_driver_socket' js initial))
      (stream-flatten made)
      (run-delivered reader k (λ n. get_or made n []) (length made) sock' timer_driver_socket' js
        room (Relayed-Honest k made reader (posted s.sent) js sent.posts relayed))
  where
    made : List (List ℕ)
    made = written k sock timer_driver_socket is t

    sent : Wrote k f made s
    sent = all_made k f sock timer_driver_socket is t s p room a h ran

-- Whatever the network between two daemons loses, repeats, reorders or damages: the bytes that the
-- processes at one end have been sent from a session are the first of those that were written to
-- the session at the other end, so none is missing in between, if every request of these processes,
-- when it is made, ends where one of the written buffers ends (they ask for what was written, not
-- for a part of it). At the start no package of the session exists, and `InBufferPackages` and the
-- descriptors are in order; fewer than 2 ^ 32 buffers are written; no other session gets its
-- number; each SEND hands over the bytes that it announces; a package that passes the checksum is a
-- copy of one that was sent; and these processes and no others ask for the session's bytes.
pub run-delivers_prefix :
    (k f sock timer_driver_socket : ℕ) (is : List Inputs) (t s : Tcpd)
    → All (λ i. Proper k i.front) is
    → length (written k sock timer_driver_socket is t) < 2 ^ 32
    → Accounts t
    → Wrote k f [] t
    → run sock timer_driver_socket is t ≡ done s
    → (reader : Addr → Bool) (sock' timer_driver_socket' : ℕ) (js : List Inputs)
    → FairRun reader k
        (λ m. IsCopy m (posted s.sent))
        (EndsBuffer (written k sock timer_driver_socket is t))
        sock'
        timer_driver_socket'
        js
        initial
    → OnDone
        (λ r. Begins (delivered reader r.sent) (flatten (written k sock timer_driver_socket is t)))
        (run sock' timer_driver_socket' js initial)
run-delivers_prefix k f sock timer_driver_socket is t s p room a h ran reader sock'
      timer_driver_socket' js fair =
    OnDone-map _ _ (run sock' timer_driver_socket' js initial) (λ r. first r)
      (run_promises reader k (Exact source (length made)) (Holds source (length made))
        (EndsPackage source) (Exact-Promise source (length made) room) sock' timer_driver_socket' js
        (FairRun-mono reader k (λ m. IsCopy m (posted s.sent)) (Holds source (length made))
          (EndsBuffer made) (EndsPackage source)
          (λ m own copy. copy_Holds k made m (posted s.sent) own copy sent.posts)
          (EndsBuffer-EndsPackage made) sock' timer_driver_socket' js initial fair))
  where
    made : List (List ℕ)
    made = written k sock timer_driver_socket is t

    source : ℕ → List ℕ
    source n = get_or made n []

    sent : Wrote k f made s
    sent = all_made k f sock timer_driver_socket is t s p room a h ran

    first :
        (r : Tcpd)
        → (delivered reader r.sent ≡ [])
          ⊎ One k (Exact source (length made) (delivered reader r.sent)) r.accepted_sockets
        → Begins (delivered reader r.sent) (flatten made)
    first r (inl e) = (flatten made, ap (λ d. d ++ flatten made) e)
    first r (inr h) = One-Begins k made (delivered reader r.sent) r.accepted_sockets h
