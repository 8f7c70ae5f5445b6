-- ===== src/Tcpd/Loop/Fair.antt =====
-- What a round of the loop may read, for the promise to the readers of a session.
use network_proj.Prelude.{ℕ, ◌≡◌, Bool, true, ◌==◌, List, [], ◌∷◌, some}
use network_proj.Net.{Addr, OnDone, OnDone-map}
use network_proj.Tcpd.Message.{Message, is_intact}
use network_proj.Tcpd.State.{Tcpd}
use network_proj.Tcpd.Stream.{delivered}
use network_proj.Tcpd.Loop.{recv, Inputs, round}

-- What a round may read in a state: `C` holds of an intact package of session `k`, the processes that
-- `reader` tells are those that ask for bytes of the session, and `W` holds of what they ask for.
pub record Fair (reader : Addr → Bool) (k : ℕ) (C : Message → Type 0) (W : List ℕ → ℕ → Type 0)
    (i : Inputs) (t : Tcpd) : Type 0 where
  pub packages :
      (fd : ℕ) (m : Message) (remote : Addr)
      → i.packages fd ≡ some (m, remote)
      → is_intact m ≡ true
      → m.session ≡ k
      → C m
  pub asked :
      (from : Addr) (sockfd len : ℕ)
      → i.front ≡ some (from, recv (some (sockfd, len)))
      → (reader from ≡ (sockfd == k)) × (sockfd ≡ k → W (delivered reader t.sent) len)

-- This holds in each round of a run.
abbrev pub FairRun :
    (reader : Addr → Bool) (k : ℕ) (C : Message → Type 0) (W : List ℕ → ℕ → Type 0)
    (sock timer_driver_socket : ℕ)
    → List Inputs
    → Tcpd
    → Type 0
FairRun reader k C W sock timer_driver_socket [] t = Unit {0}
FairRun reader k C W sock timer_driver_socket (i ∷ is) t =
    Fair reader k C W i t
    × OnDone (FairRun reader k C W sock timer_driver_socket is) (round sock timer_driver_socket i t)

module _ (reader : Addr → Bool) (k : ℕ) (C C' : Message → Type 0) (W W' : List ℕ → ℕ → Type 0)
    (packages : (m : Message) → m.session ≡ k → C m → C' m)
    (requests : (d : List ℕ) (len : ℕ) → W d len → W' d len) where
  Fair-mono : (i : Inputs) (t : Tcpd) → Fair reader k C W i t → Fair reader k C' W' i t
  Fair-mono i t fair = record {
    packages = λ fd m remote e intact own. packages m own (fair.packages fd m remote e intact own);
    asked = λ from sockfd len e.
        let a = fair.asked from sockfd len e in
        (a.0, λ own. requests (delivered reader t.sent) len (a.1 own));
  }

  pub FairRun-mono :
      (sock timer_driver_socket : ℕ) (is : List Inputs) (t : Tcpd)
      → FairRun reader k C W sock timer_driver_socket is t
      → FairRun reader k C' W' sock timer_driver_socket is t
  FairRun-mono sock timer_driver_socket [] t h = tt
  FairRun-mono sock timer_driver_socket (i ∷ is) t h = (
    Fair-mono i t h.0,
    OnDone-map _ _ (round sock timer_driver_socket i t) (FairRun-mono sock timer_driver_socket is)
        h.1,
  )
