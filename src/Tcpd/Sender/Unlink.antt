-- ===== src/Tcpd/Sender/Unlink.antt =====
-- Taking a package out of a window by its session and number, and moving it behind the pending ones.
use mathlib.Core.List.{Perm, perm_append_singleton}
use mathlib.Core.List.Perm
use network_proj.Prelude.{
  ℕ, suc, ◌≡◌, refl, ap, Bool, true, false, ◌||◌, ◌⊎◌, inl, inr, List, [], ◌∷◌, ◌++◌, Option, none,
  some, arith, Bool-cases, length, length-append,
}
use network_proj.Tcpd.Message.{Message}
use network_proj.Tcpd.State.{ConnectedSocket}
use network_proj.Tcpd.Sender.{names, unlink, moved, expire_package}
use network_proj.Tcpd.Sender.Count.{held}

-- Whether any package has that name.
unfoldable pub has_name : ℕ → ℕ → List Message → Bool
has_name session seq [] = false
has_name session seq (m ∷ l) = names session seq m || has_name session seq l

-- What the search has found: nothing, where no package has the name, or one that has, and the others.
abbrev pub Unlinks : ℕ → ℕ → List Message → Option (Message × List Message) → Type 0
Unlinks session seq l none = has_name session seq l ≡ false
Unlinks session seq l (some (m, rest)) =
    (names session seq m ≡ true) × (length l ≡ suc (length rest)) × Perm l (m ∷ rest)

skip_Unlinks :
    (session seq : ℕ) (x : Message) (l : List Message) (o : Option (Message × List Message))
    → names session seq x ≡ false
    → Unlinks session seq l o
    → Unlinks session seq (x ∷ l) (elim o [ none ↦ none | some (m, r) ↦ some (m, x ∷ r) ])
unfolding has_name
skip_Unlinks session seq x l none miss h = rw (miss, h)
skip_Unlinks session seq x l (some (m, r)) miss h =
    (h.0, ap suc h.1, Perm.trans (Perm.cons x h.2) (Perm.swap m x r))

pub unlink-Unlinks :
    (session seq : ℕ) (l : List Message) → Unlinks session seq l (unlink session seq l)
unfolding unlink has_name
unlink-Unlinks session seq [] = refl
unlink-Unlinks session seq (x ∷ l) = elim (Bool-cases (names session seq x)) [
  | inl hit ↦ rw hit (hit, refl, Perm.refl (x ∷ l))
  | inr miss ↦
      rw miss
        (skip_Unlinks session seq x l (unlink session seq l) miss (unlink-Unlinks session seq l))
]

-- Where the search has found it: the first package of that name, between those before and behind.
abbrev pub Splits : ℕ → ℕ → List Message → Option (Message × List Message) → Type 0
Splits session seq l none = has_name session seq l ≡ false
Splits session seq l (some (m, rest)) =
    (front back : List Message) × (l ≡ front ++ m ∷ back)
    × (rest ≡ front ++ back)
    × (names session seq m ≡ true)
    × (has_name session seq front ≡ false)

skip_Splits :
    (session seq : ℕ) (x : Message) (l : List Message) (o : Option (Message × List Message))
    → names session seq x ≡ false
    → Splits session seq l o
    → Splits session seq (x ∷ l) (elim o [ none ↦ none | some (m, r) ↦ some (m, x ∷ r) ])
unfolding has_name
skip_Splits session seq x l none miss h = rw (miss, h)
skip_Splits session seq x l (some (m, r)) miss (front, back, whole, rest, hit, first) =
    (x ∷ front, back, ap (◌∷◌ x) whole, ap (◌∷◌ x) rest, hit, rw miss first)

pub unlink-Splits :
    (session seq : ℕ) (l : List Message) → Splits session seq l (unlink session seq l)
unfolding unlink has_name
unlink-Splits session seq [] = refl
unlink-Splits session seq (x ∷ l) = elim (Bool-cases (names session seq x)) [
  | inl hit ↦ rw hit ([], l, refl, refl, hit, refl)
  | inr miss ↦
      rw miss
        (skip_Splits session seq x l (unlink session seq l) miss (unlink-Splits session seq l))
]

-- A socket before and after its timer has run out: the first package of that name waits behind the
-- pending ones, and the others stay where they are; where there is none, nothing changes.
abbrev pub Requeued : ℕ → ℕ → ConnectedSocket → ConnectedSocket → Type 0
Requeued session seq c c' =
    ((has_name session seq c.packages ≡ false) × (c' ≡ c))
    ⊎ ((m : Message) × (front back : List Message) × (c.packages ≡ front ++ m ∷ back)
        × (names session seq m ≡ true)
        × (has_name session seq front ≡ false)
        × (c' ≡ record c {
          packages = front ++ back;
          pending_packages = c.pending_packages ++ m ∷ [];
        }))

moved-Requeued :
    (session seq : ℕ) (c : ConnectedSocket) (o : Option (Message × List Message))
    → Splits session seq c.packages o
    → Requeued session seq c (moved c o)
moved-Requeued session seq c none h = inl (h, refl)
moved-Requeued session seq c (some (m, rest)) (front, back, whole, left, hit, first) = inr (
  m,
  front,
  back,
  whole,
  hit,
  first,
  ap (λ p. record c { packages = p; pending_packages = c.pending_packages ++ m ∷ [] }) left,
)

pub expire_package-Requeued :
    (session seq : ℕ) (c : ConnectedSocket) → Requeued session seq c (expire_package session seq c)
unfolding expire_package
expire_package-Requeued session seq c =
    moved-Requeued session seq c (unlink session seq c.packages)
      (unlink-Splits session seq c.packages)

-- All packages of a socket, those in the window first.
abbrev pub all_packages : ConnectedSocket → List Message
all_packages c = c.packages ++ c.pending_packages

append_last : (l k : List Message) (m : Message) → Perm (l ++ (k ++ m ∷ [])) ((m ∷ l) ++ k)
append_last [] k m = perm_append_singleton m k
append_last (x ∷ l) k m = Perm.trans (Perm.cons x (append_last l k m)) (Perm.swap m x (l ++ k))

moved-perm :
    (session seq : ℕ) (c : ConnectedSocket) (o : Option (Message × List Message))
    → Unlinks session seq c.packages o
    → Perm (all_packages (moved c o)) (all_packages c)
moved-perm session seq c none h = Perm.refl (all_packages c)
moved-perm session seq c (some (m, rest)) h =
    Perm.trans (append_last rest c.pending_packages m)
      (Perm.append (Perm.symm h.2) (Perm.refl c.pending_packages))

-- An expired timer loses no package of its socket and makes none up.
pub expire_package-perm :
    (session seq : ℕ) (c : ConnectedSocket)
    → Perm (all_packages (expire_package session seq c)) (all_packages c)
unfolding expire_package
expire_package-perm session seq c =
    moved-perm session seq c (unlink session seq c.packages) (unlink-Unlinks session seq c.packages)

moved-held :
    (session seq : ℕ) (c : ConnectedSocket) (o : Option (Message × List Message))
    → Unlinks session seq c.packages o
    → held (moved c o) ≡ held c
moved-held session seq c none h = refl
moved-held session seq c (some (m, rest)) h =
    omega (arith, h.1, length-append c.pending_packages (m ∷ []))

pub expire_package-held :
    (session seq : ℕ) (c : ConnectedSocket) → held (expire_package session seq c) ≡ held c
unfolding expire_package
expire_package-held session seq c =
    moved-held session seq c (unlink session seq c.packages) (unlink-Unlinks session seq c.packages)

moved-socket_fd :
    (c : ConnectedSocket) (o : Option (Message × List Message))
    → (moved c o).socket_fd ≡ c.socket_fd
moved-socket_fd c none = refl
moved-socket_fd c (some (m, rest)) = refl

pub expire_package-socket_fd :
    (session seq : ℕ) (c : ConnectedSocket) → (expire_package session seq c).socket_fd ≡ c.socket_fd
unfolding expire_package
expire_package-socket_fd session seq c = moved-socket_fd c (unlink session seq c.packages)

moved-session :
    (c : ConnectedSocket) (o : Option (Message × List Message)) → (moved c o).session ≡ c.session
moved-session c none = refl
moved-session c (some (m, rest)) = refl

pub expire_package-session :
    (session seq : ℕ) (c : ConnectedSocket) → (expire_package session seq c).session ≡ c.session
unfolding expire_package
expire_package-session session seq c = moved-session c (unlink session seq c.packages)
