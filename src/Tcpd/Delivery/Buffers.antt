-- ===== src/Tcpd/Delivery/Buffers.antt =====
-- The stream of a session and the buffers that were written to it (Proj1/tcpd.c, tcpd_SEND), and
-- packages that are copies of those that were sent.
use mathlib.Core.List.{Sublist, flatten, append_assoc, append-nil}
use mathlib.Core.List.Sublist as Sub
use network_proj.Prelude.{
  ℕ, zero, suc, ◌+◌, ◌≤◌, ◌<◌, ◌≡◌, ◌⊎◌, inl, inr, refl, sym, ap, ap₂, ◌∙◌, subst, List, [], ◌∷◌,
  ◌++◌, some, All, get_elem?, get_or, length, arith, take, drop,
}
use network_proj.Tcpd.Message.{Message}
use network_proj.Tcpd.State.{AcceptedSocket}
use network_proj.Tcpd.Receiver.Fill.{payload}
use network_proj.Tcpd.Stream.{stream, One}
use network_proj.Tcpd.Receiver.Stream.{Carries}
use network_proj.Tcpd.Receiver.Exact.{Holds, Exact, EndsPackage}
use network_proj.Tcpd.Written.{IsMade}

-- The package has the number and the bytes of one that was sent; the header is the network's.
abbrev pub Copies : Message → Message → Type 0
Copies m p = (m.session ≡ p.session) × (m.seq_num ≡ p.seq_num) × (m.len ≡ p.len) × (m.body ≡ p.body)

abbrev pub IsCopy : Message → List Message → Type 0
IsCopy m [] = ⊥
IsCopy m (p ∷ l) = Copies m p ⊎ IsCopy m l

get_elem?-lt : (xs : List (List ℕ)) (n : ℕ) (x : List ℕ) → get_elem? xs n ≡ some x → n < length xs
get_elem?-lt [] n x e = cc
get_elem?-lt (y ∷ xs) zero x e = omega arith
get_elem?-lt (y ∷ xs) (suc n) x e = omega (arith, get_elem?-lt xs n x e)

get_or-get_elem? :
    (xs : List (List ℕ)) (n : ℕ) (x : List ℕ) → get_elem? xs n ≡ some x → get_or xs n [] ≡ x
get_or-get_elem? [] n x e = cc
get_or-get_elem? (y ∷ xs) zero x e = cc
get_or-get_elem? (y ∷ xs) (suc n) x e = get_or-get_elem? xs n x e

stream-suc :
    (source : ℕ → List ℕ) (n : ℕ)
    → stream source (suc n) ≡ source 0 ++ stream (λ j. source (suc j)) n
stream-suc source zero = sym (append-nil (source 0))
stream-suc source (suc n) =
    ap (λ l. l ++ source (suc n)) (stream-suc source n)
    ∙ append_assoc (source 0) (stream (λ j. source (suc j)) n) (source (suc n))

take-nil : (n : ℕ) → take {A = List ℕ} n [] ≡ []
take-nil zero = refl
take-nil (suc n) = refl

nothing-stream : (n : ℕ) → stream (λ j. []) n ≡ []
nothing-stream zero = refl
nothing-stream (suc n) = append-nil (stream (λ j. []) n) ∙ nothing-stream n

-- The stream of the first packages that hold the buffers.
stream-take : (xs : List (List ℕ)) (n : ℕ) → stream (λ j. get_or xs j []) n ≡ flatten (take n xs)
unfolding flatten
stream-take xs zero = refl
stream-take [] (suc n) = nothing-stream (suc n)
stream-take (x ∷ xs) (suc n) =
    stream-suc (λ j. get_or (x ∷ xs) j []) n ∙ ap (λ l. x ++ l) (stream-take xs n)

-- The stream of the packages that hold the buffers.
pub stream-flatten : (xs : List (List ℕ)) → stream (λ n. get_or xs n []) (length xs) ≡ flatten xs
unfolding flatten
stream-flatten [] = refl
stream-flatten (x ∷ xs) =
    stream-suc (λ n. get_or (x ∷ xs) n []) (length xs) ∙ ap (λ l. x ++ l) (stream-flatten xs)

module _ (k : ℕ) (made : List (List ℕ)) where
  copied_Holds :
      (m p : Message)
      → m.session ≡ k
      → Copies m p
      → IsMade k made p
      → Holds (λ n. get_or made n []) (length made) m
  copied_Holds m p own c h = (
    subst (λ n. n < length made) (sym c.1) (get_elem?-lt made p.seq_num (payload p) held.0),
    omega (arith, held.1, c.2, ap length c.3),
    ap₂ take c.2 c.3
        ∙ sym (get_or-get_elem? made p.seq_num (payload p) held.0)
        ∙ ap (λ n. get_or made n []) (sym c.1),
  )
    where
      held : (get_elem? made p.seq_num ≡ some (payload p)) × (p.len ≤ length p.body)
      held = h (sym c.0 ∙ own)

  pub copy_Holds :
      (m : Message) (l : List Message)
      → m.session ≡ k
      → IsCopy m l
      → All (IsMade k made) l
      → Holds (λ n. get_or made n []) (length made) m
  copy_Holds m [] own c h = elim c [ ]
  copy_Holds m (p ∷ l) own (inl c) h = copied_Holds m p own c h.0
  copy_Holds m (p ∷ l) own (inr c) h = copy_Holds m l own c h.1

  pub copy_Carries :
      (m : Message) (l : List Message)
      → m.session ≡ k
      → IsCopy m l
      → All (IsMade k made) l
      → Carries (λ n. get_or made n []) (length made) m
  copy_Carries m l own c h =
      let held = copy_Holds m l own c h in
      (held.0, held.1, subst (Sublist (payload m)) held.2 (Sub.refl (payload m)))

-- A request of `len` bytes by processes that have been sent `d` ends where a buffer ends.
abbrev pub EndsBuffer : List (List ℕ) → List ℕ → ℕ → Type 0
EndsBuffer made d len = (n : ℕ) × (length d + len ≡ length (flatten (take n made)))

module _ (made : List (List ℕ)) where
  pub EndsBuffer-EndsPackage :
      (d : List ℕ) (len : ℕ) → EndsBuffer made d len → EndsPackage (λ n. get_or made n []) d len
  EndsBuffer-EndsPackage d len (n, e) = (n, e ∙ ap length (sym (stream-take made n)))

flatten-split :
    (n : ℕ) (xs : List (List ℕ)) → flatten (take n xs) ++ flatten (drop n xs) ≡ flatten xs
unfolding flatten
flatten-split zero xs = refl
flatten-split (suc n) [] = refl
flatten-split (suc n) (x ∷ xs) =
    append_assoc x (flatten (take n xs)) (flatten (drop n xs))
    ∙ ap (λ l. x ++ l) (flatten-split n xs)

-- The bytes `d` are the first of `all`.
abbrev pub Begins : List ℕ → List ℕ → Type 0
Begins d all = (rest : List ℕ) × (d ++ rest ≡ all)

pub Exact-Begins :
    (made : List (List ℕ)) (d : List ℕ) (s : AcceptedSocket)
    → Exact (λ n. get_or made n []) (length made) d s
    → Begins d (flatten made)
Exact-Begins made d s h = (
  s.recv_buffer ++ flatten (drop s.base made),
  sym (append_assoc d s.recv_buffer (flatten (drop s.base made)))
      ∙ ap (λ l. l ++ flatten (drop s.base made)) (h.received ∙ stream-take made s.base)
      ∙ flatten-split s.base made,
)

pub One-Begins :
    (k : ℕ) (made : List (List ℕ)) (d : List ℕ) (l : List AcceptedSocket)
    → One k (Exact (λ n. get_or made n []) (length made) d) l
    → Begins d (flatten made)
One-Begins k made d [] h = elim h [ ]
One-Begins k made d (s ∷ l) (inl own) = Exact-Begins made d s own.1
One-Begins k made d (s ∷ l) (inr later) = One-Begins k made d l later.1
