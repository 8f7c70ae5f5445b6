-- ===== src/Tcpd/Receiver/Order.antt =====
-- The window does not depend on the order in which packages arrive, nor on retransmissions.
use mathlib.Core.List.{Perm, Permᴰ}
use mathlib.Core.List.Permᴰ.{nil, cons, swap, trans}
use mathlib.Core.Logic.{∥∥₁_elim}
use network_proj.Prelude.{ℕ, ◌≡◌, refl, sym, ap, ◌∙◌, List, [], ◌∷◌, All, subst}
use native.Mathlib.Decide.{ℕ_discrete}
use network_proj.Tcpd.Message.{Message}
use network_proj.Tcpd.State.{AcceptedSocket}
use network_proj.Tcpd.Receiver.{store_package}
use network_proj.Tcpd.Receiver.Window.{IsWindow, store_package-IsWindow, store_package_comm}

-- What the packages of a list leave, the last first.
abbrev pub store_all : List Message → AcceptedSocket → AcceptedSocket
store_all [] s = s
store_all (m ∷ l) s = store_package m (store_all l s)

-- Every package is the one that the sender made under its number.
abbrev pub AreSent : (ℕ → Message) → List Message → Type 0
AreSent source l = All (λ m. m ≡ source m.seq_num) l

store_all-IsWindow : (l : List Message) (s : AcceptedSocket) → IsWindow s → IsWindow (store_all l s)
store_all-IsWindow [] s w = w
store_all-IsWindow (m ∷ l) s w = store_package-IsWindow m (store_all l s) (store_all-IsWindow l s w)

AcceptedSocket-set : IsSet AcceptedSocket
AcceptedSocket-set = hlevel

module _ (source : ℕ → Message) where
  swapped :
      (a b : Message) (s : AcceptedSocket)
      → IsWindow s
      → a ≡ source a.seq_num
      → b ≡ source b.seq_num
      → store_package a (store_package b s) ≡ store_package b (store_package a s)
  swapped a b s w ea eb = elim (ℕ_discrete a.seq_num b.seq_num) [
    | yes same ↦ let equal : a ≡ b = ea ∙ ap source same ∙ sym eb in rw equal
    | no other ↦ store_package_comm a b s w other
  ]

  AreSent-perm : {l k : List Message} → Permᴰ l k → AreSent source l → AreSent source k
  AreSent-perm nil h = h
  AreSent-perm (cons e p) h = (subst (λ m. m ≡ source m.seq_num) e h.0, AreSent-perm p h.1)
  AreSent-perm (swap ea eb) h = (
    subst (λ m. m ≡ source m.seq_num) eb h.1.0,
    (subst (λ m. m ≡ source m.seq_num) ea h.0, h.1.1),
  )
  AreSent-perm (trans p q) h = AreSent-perm q (AreSent-perm p h)

  store_all_permd :
      {l k : List Message} (s : AcceptedSocket)
      → Permᴰ l k
      → IsWindow s
      → AreSent source l
      → store_all l s ≡ store_all k s
  store_all_permd s nil w h = refl
  store_all_permd s (cons {l₁ = l} e p) w h =
      ap (λ m. store_package m (store_all l s)) e ∙ ap (store_package _) (store_all_permd s p w h.1)
  store_all_permd s (swap {a} {b} {a' = a'} {l = l} ea eb) w h =
      swapped a b (store_all l s) (store_all-IsWindow l s w) h.0 h.1.0
      ∙ ap (λ m. store_package m (store_package a (store_all l s))) eb
      ∙ ap (λ m. store_package a' (store_package m (store_all l s))) ea
  store_all_permd s (trans p q) w h =
      store_all_permd s p w h ∙ store_all_permd s q w (AreSent-perm p h)

  -- Packages that come from one sender, which makes one package for each number, leave the same
  -- struct in whatever order they arrive, retransmitted ones among them, if the struct's packages
  -- are sorted by number, without two of one number and with none below `Base`.
  pub store_all_perm :
      (l k : List Message) (s : AcceptedSocket)
      → Perm l k
      → IsWindow s
      → AreSent source l
      → store_all l s ≡ store_all k s
  store_all_perm l k s p w h = ∥∥₁_elim p (AcceptedSocket-set _ _) (λ d. store_all_permd s d w h)
