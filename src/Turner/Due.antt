-- ===== src/Turner/Due.antt =====
-- What the list of Turner/timer.c stands for: for each node the time at which it is due.
use network_proj.Prelude.{ℕ, ◌≡◌, refl, ap, List, [], ◌∷◌, ◌++◌, ◌==◌, if◌then◌else◌}
use network_proj.Prelude.Int.{ℤ, pos, ◌+ℤ◌, ◌≤ℤ◌, int_laws}
use network_proj.Turner.{Node}

pub record Due : Type 0 where
  pub seq : ℕ
  pub port : ℕ
  pub at : ℤ

abbrev pub due : Node → ℤ → Due
due n t = record { seq = n.seq; port = n.port; at = t }

-- The first node of the list counts from the given time.
unfoldable pub due_times : ℤ → List Node → List Due
due_times t [] = []
due_times t (n ∷ l) = due n (t +ℤ n.time_diff) ∷ due_times (t +ℤ n.time_diff) l

-- The first node of that number goes, and no other changes.
unfoldable pub without : ℕ → List Due → List Due
without seq [] = []
without seq (d ∷ l) = if d.seq == seq then l else d ∷ without seq l

-- No difference is negative; the first node of the whole list may be overdue.
abbrev pub Deltas : List Node → Type 0
Deltas [] = Unit {0}
Deltas (n ∷ l) = (pos 0 ≤ℤ n.time_diff) × Deltas l

abbrev pub IsDelta : List Node → Type 0
IsDelta [] = Unit {0}
IsDelta (n ∷ l) = Deltas l

abbrev pub NotAfter : ℤ → List Due → Type 0
NotAfter t [] = Unit {0}
NotAfter t (d ∷ l) = (d.at ≤ℤ t) × NotAfter t l

abbrev pub NotBefore : ℤ → List Due → Type 0
NotBefore t [] = Unit {0}
NotBefore t (d ∷ l) = (t ≤ℤ d.at) × NotBefore t l

-- One entry has been put between those that are due no later and those that are due no earlier.
pub record Placed (d : Due) (old result : List Due) : Type 0 where
  pub before : List Due
  pub after : List Due
  pub splits : old ≡ before ++ after
  pub joins : result ≡ before ++ d ∷ after
  pub earlier : NotAfter d.at before
  pub later : NotBefore d.at after

pub Placed-first : (d : Due) (l : List Due) → NotBefore d.at l → Placed d l (d ∷ l)
Placed-first d l h = record {
  before = [];
  after = l;
  splits = refl;
  joins = refl;
  earlier = tt;
  later = h;
}

pub Placed-behind :
    (d b : Due) (old result : List Due)
    → b.at ≤ℤ d.at
    → Placed d old result
    → Placed d (b ∷ old) (b ∷ result)
Placed-behind d b old result h p = record {
  before = b ∷ p.before;
  after = p.after;
  splits = ap (◌∷◌ b) p.splits;
  joins = ap (◌∷◌ b) p.joins;
  earlier = (h, p.earlier);
  later = p.later;
}

pub NotBefore-due_times :
    (s t : ℤ) (l : List Node) → s ≤ℤ t → Deltas l → NotBefore s (due_times t l)
unfolding due_times
NotBefore-due_times s t [] h d = tt
NotBefore-due_times s t (n ∷ l) h d =
    let next : s ≤ℤ t +ℤ n.time_diff = omega (d.0, int_laws) in
    (next, NotBefore-due_times s (t +ℤ n.time_diff) l next d.1)
