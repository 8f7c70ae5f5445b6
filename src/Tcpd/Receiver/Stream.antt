-- ===== src/Tcpd/Receiver/Stream.antt =====
-- The `while` of `SolveRecvCallback` and the answer after it, for one socket: what is in the buffer
-- and what has been delivered stay bytes of the stream in order, also where a package is cut.
use mathlib.Core.List.{Sublist, append_assoc, append-nil}
use mathlib.Core.List.Sublist as Sub
use mathlib.Core.List
use network_proj.Prelude.{
  ℕ, zero, suc, ◌+◌, ◌-◌, ◌%◌, ◌^◌, ◌≤◌, ◌<◌, ◌≡◌, refl, sym, subst, ltb, leb, ◌==◌, if_cases, List,
  [], ◌∷◌, ◌++◌, All, length, take, drop, take-append-drop, arith, length-append, length-take,
  length-drop,
}
use network_proj.Tcpd.Message.{Message}
use network_proj.Tcpd.State.{AcceptedSocket}
use network_proj.Tcpd.Receiver.{
  fill, fill_buffer, has_seq, insert_package, store_package, total_len, consume, cut, shorten, room,
}
use network_proj.Tcpd.Receiver.Fill.{payload}
use network_proj.Tcpd.Receiver.Loss.{payload-shorten}
use network_proj.Tcpd.Stream.{stream, Promise}

-- A package of the session: one of the first `limit`, with what is left of its bytes.
abbrev pub Carries : (ℕ → List ℕ) → ℕ → Message → Type 0
Carries source limit m =
    (m.seq_num < limit) × (m.len ≤ length m.body) × Sublist (payload m) (source m.seq_num)

-- A socket of the session, when its readers have been sent `bytes`.
pub record Sound (source : ℕ → List ℕ) (limit : ℕ) (bytes : List ℕ) (s : AcceptedSocket)
    : Type 0 where
  pub carried : All (Carries source limit) s.packages
  pub below : s.base ≤ limit
  pub received : Sublist (bytes ++ s.recv_buffer) (stream source s.base)

-- The loop leaves the request and the session alone.
pub record Same (s r : AcceptedSocket) : Type 0 where
  pub session : r.session ≡ s.session
  pub wanted : r.receiving_length ≡ s.receiving_length
  pub address : r.receiving_addr ≡ s.receiving_addr

pub fill-Same : (f : ℕ) (ps : List Message) (s : AcceptedSocket) → Same s (fill f ps s)
unfolding fill
fill-Same zero ps s = record { session = refl; wanted = refl; address = refl }
fill-Same (suc f) [] s = record { session = refl; wanted = refl; address = refl }
fill-Same (suc f) (m ∷ rest) s = ground (
  arith,
  fill-Same f rest (consume m rest s),
  fill-Same f (shorten (room s) m ∷ rest) (cut m rest s),
)

drop-sublist : (n : ℕ) (l : List ℕ) → Sublist (drop n l) l
drop-sublist n l =
    subst (λ x. Sublist (drop n l) x) (take-append-drop n l)
      (List.sublist-append_right (take n l) (drop n l))

length-shorten :
    (r : ℕ) (m : Message) → m.len ≤ length m.body → (shorten r m).len ≤ length (shorten r m).body
length-shorten r m sized = omega (
  arith,
  length-append (take (m.len - r) (drop r m.body)) (drop (m.len - r) m.body),
  length-take (m.len - r) (drop r m.body),
  length-drop r m.body,
  length-drop (m.len - r) m.body,
)

module _ (source : ℕ → List ℕ) where
  stream-le : (n d : ℕ) → Sublist (stream source n) (stream source (d + n))
  stream-le n zero = let same : 0 + n ≡ n = omega arith in rw same (Sub.refl (stream source n))
  stream-le n (suc d) =
      let more : suc d + n ≡ suc (d + n) = omega arith in
      rw more (
        Sub.trans (stream-le n d)
          (List.sublist-append_left (stream source (d + n)) (source (d + n))))

  -- The stream of fewer packages is a part of that of more.
  pub stream_mono : (n m : ℕ) → n ≤ m → Sublist (stream source n) (stream source m)
  stream_mono n m h =
      let sum : m - n + n ≡ m = omega arith in
      subst (λ x. Sublist (stream source n) (stream source x)) sum (stream-le n (m - n))

module _ (source : ℕ → List ℕ) (limit : ℕ) where
  Carries-shorten :
      (r : ℕ) (m : Message)
      → r ≤ m.len
      → Carries source limit m
      → Carries source limit (shorten r m)
  Carries-shorten r m fits c = (
    c.0,
    length-shorten r m c.1,
    rw (payload-shorten r m fits c.1) (Sub.trans (drop-sublist r (payload m)) c.2),
  )

  module _ (wide : limit < 2 ^ 32) (d : List ℕ) where
    consume-Sound :
        (m : Message) (rest : List Message) (s : AcceptedSocket)
        → s.packages ≡ m ∷ rest
        → m.seq_num ≡ s.base
        → Sound source limit d s
        → Sound source limit d (consume m rest s)
    consume-Sound m rest s e due h = record {
      carried = carried.1;
      below = omega (arith, carried.0);
      received =
          subst (λ b. Sublist (d ++ (s.recv_buffer ++ payload m)) (stream source b)) next
            (subst (λ b. Sublist b (stream source (suc s.base)))
              (append_assoc d s.recv_buffer (payload m))
              (Sub.append h.received
                (subst (λ n. Sublist (payload m) (source n)) due carried.0.2)));
    }
      where
        carried : All (Carries source limit) (m ∷ rest)
        carried = subst (All (Carries source limit)) e h.carried

        next : suc s.base ≡ (s.base + 1) % 2 ^ 32
        next = omega (arith, carried.0)

    cut-Sound :
        (m : Message) (rest : List Message) (s : AcceptedSocket)
        → s.packages ≡ m ∷ rest
        → s.receiving_length < length s.recv_buffer + m.len
        → Sound source limit d s
        → Sound source limit d (cut m rest s)
    cut-Sound m rest s e over h = record {
      carried = (Carries-shorten (room s) m (omega arith) carried.0, carried.1);
      below = h.below;
      received = h.received;
    }
      where
        carried : All (Carries source limit) (m ∷ rest)
        carried = subst (All (Carries source limit)) e h.carried

    pub fill-Sound :
        (f : ℕ) (ps : List Message) (s : AcceptedSocket)
        → s.packages ≡ ps
        → Sound source limit d s
        → Sound source limit d (fill f ps s)
    unfolding fill
    fill-Sound zero ps s e h = h
    fill-Sound (suc f) [] s e h = h
    fill-Sound (suc f) (m ∷ rest) s e h =
        if_cases (Sound source limit d) (ltb (length s.recv_buffer) s.receiving_length) _ s
          (λ open_.
            if_cases (Sound source limit d) (m.seq_num == s.base) _ s
              (λ due.
                if_cases (Sound source limit d)
                  (leb (length s.recv_buffer + m.len) s.receiving_length) taken kept
                  (λ fits.
                    fill-Sound f rest (consume m rest s) refl
                      (consume-Sound m rest s e (ground arith) h))
                  (λ over.
                    fill-Sound f (shorten (room s) m ∷ rest) (cut m rest s) refl
                      (cut-Sound m rest s e (ground arith) h)))
              (λ other. h))
          (λ full. h)
      where
        taken : AcceptedSocket
        taken = fill f rest (consume m rest s)

        kept : AcceptedSocket
        kept = fill f (shorten (room s) m ∷ rest) (cut m rest s)

-- A property of the stored packages.
pub insert_package-All :
    (P : Message → Type 0) (m : Message) (l : List Message)
    → P m
    → All P l
    → All P (insert_package m l)
unfolding insert_package
insert_package-All P m [] c h = (c, tt)
insert_package-All P m (x ∷ l) c h =
    if_cases (All P) (ltb m.seq_num x.seq_num) _ _ (λ here. (c, h))
      (λ later. (h.0, insert_package-All P m l c h.1))

module _ (source : ℕ → List ℕ) (limit : ℕ) where
  store_package-Sound :
      (d : List ℕ) (m : Message) (s : AcceptedSocket)
      → Carries source limit m
      → Sound source limit d s
      → Sound source limit d (store_package m s)
  unfolding store_package
  store_package-Sound d m s c h =
      if_cases (Sound source limit d) (ltb m.seq_num s.base) s _ (λ old. h)
        (λ new.
          if_cases (Sound source limit d) (has_seq m.seq_num s.packages) s _ (λ again. h)
            (λ first. record {
              carried = insert_package-All (Carries source limit) m s.packages c h.carried;
              below = h.below;
              received = h.received;
            }))

-- The promise that holds whatever the processes ask for.
pub Sound-Promise :
    (source : ℕ → List ℕ) (limit : ℕ)
    → limit < 2 ^ 32
    → Promise (Sound source limit) (Carries source limit) (λ d len. Unit {0})
unfolding fill_buffer
Sound-Promise source limit wide = record {
  fresh = λ fd session. record { carried = tt; below = omega arith; received = Sub.refl [] };
  stored = store_package-Sound source limit;
  filled = λ d s h. fill-Sound source limit wide d (total_len s.packages + 1) s.packages s refl h;
  answered = λ d s full h. record {
    carried = h.carried;
    below = h.below;
    received =
        subst (λ b. Sublist b (stream source s.base)) (sym (append-nil (d ++ s.recv_buffer)))
          h.received;
  };
  asking = λ d s from len wanted free h. record {
    carried = h.carried;
    below = h.below;
    received = h.received;
  };
}
