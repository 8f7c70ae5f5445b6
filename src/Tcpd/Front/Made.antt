-- ===== src/Tcpd/Front/Made.antt =====
-- The package that SEND makes, and the struct after it.
use network_proj.Prelude.{
  ℕ, ◌+◌, ◌%◌, ◌^◌, ◌≤◌, ◌≡◌, refl, ◌==◌, if◌then◌else◌, List, [], ◌∷◌, ◌++◌, Option, none, some,
  arith, length, take, drop, length-append, length-take, take_append_left,
}
use network_proj.Tcpd.Message.{Message}
use network_proj.Tcpd.State.{ConnectedSocket}
use network_proj.Tcpd.Front.{new_message}
use network_proj.Tcpd.Receiver.Fill.{payload}

-- The buffer that SEND adds to those of session `k`.
unfoldable pub added_buffer : ℕ → ℕ → List ℕ → Option ConnectedSocket → List (List ℕ)
added_buffer k len buf none = []
added_buffer k len buf (some c) = if c.session == k then take len buf ∷ [] else []

module _ (c : ConnectedSocket) (fresh : Message) (len : ℕ) (buf : List ℕ)
    (filled : len ≤ length buf) where
  taken : len ≡ length (take len buf)
  taken = omega (arith, length-take len buf)

  pub new_message-payload : payload (new_message c fresh len buf) ≡ take len buf
  unfolding new_message
  new_message-payload = take_append_left len (take len buf) (drop len fresh.body) taken

  pub new_message-sized :
      (new_message c fresh len buf).len ≤ length (new_message c fresh len buf).body
  unfolding new_message
  new_message-sized = omega (arith, taken, length-append (take len buf) (drop len fresh.body))

abbrev pub sent_socket : ConnectedSocket → Message → ℕ → List ℕ → ConnectedSocket
sent_socket c fresh len buf = record c {
  base = (c.base + 1) % 2 ^ 32;
  pending_packages = c.pending_packages ++ new_message c fresh len buf ∷ [];
}

pub new_message-session :
    (c : ConnectedSocket) (fresh : Message) (len : ℕ) (buf : List ℕ)
    → (new_message c fresh len buf).session ≡ c.session
unfolding new_message
new_message-session c fresh len buf = refl

pub new_message-seq_num :
    (c : ConnectedSocket) (fresh : Message) (len : ℕ) (buf : List ℕ)
    → (new_message c fresh len buf).seq_num ≡ c.base
unfolding new_message
new_message-seq_num c fresh len buf = refl
