-- ===== src/Ftp/Sessions.antt =====
-- The server over several connections, one file each.
use network_proj.Prelude.{
  ℕ, ◌+◌, ◌^◌, ◌≤◌, ◌<◌, ◌≡◌, refl, sym, ap, ap₂, ◌∙◌, Bool, true, false, inl, inr, Bool-cases,
  List, [], ◌∷◌, Option, none, some, map, All, arith, length, if◌then◌else◌,
}
use network_proj.Net.{Addr}
use network_proj.Tcpd.Message.{Message}
use network_proj.Tcpd.State.{ConnectedSocket, AcceptedSocket}
use network_proj.Ftp.{
  Sent, finished, exited, unfinished, send_file, Received, stored, exits, stays, Directory,
  same_name, put, accepting, ended, serving, recv_file, recv_files,
}
use network_proj.Ftp.Service.{daemon_recv}
use network_proj.Ftp.Transfer.{arrived, recv_file-send_file}

-- The contents of a file.
unfoldable pub find_file : List ℕ → Directory → Option (List ℕ)
find_file name [] = none
find_file name ((other, contents) ∷ files) =
    if same_name other name then some contents else find_file name files

-- What stands under a name when some files have been sent, the later in place of the earlier.
unfoldable pub latest : List ℕ → List (List ℕ × List ℕ) → Option (List ℕ) → Option (List ℕ)
latest name [] before = before
latest name ((other, contents) ∷ jobs) before =
    latest name jobs (if same_name other name then some contents else before)

same_name→≡ : (k l : List ℕ) → same_name k l ≡ true → k ≡ l
unfolding same_name
same_name→≡ [] [] h = refl
same_name→≡ [] (d ∷ l) h = absurd (ground arith)
same_name→≡ (c ∷ k) [] h = absurd (ground arith)
same_name→≡ (c ∷ k) (d ∷ l) h =
    let head : c ≡ d = ground arith in
    let tail : same_name k l ≡ true = ground arith in ap₂ ◌∷◌ head (same_name→≡ k l tail)

never : false ≡ true → ⊥
never h = ground arith

find_file-put :
    (name new contents : List ℕ) (files : Directory)
    → find_file name (put new contents files)
      ≡ (if same_name new name then some contents else find_file name files)
unfolding find_file put
find_file-put name new contents [] = refl
find_file-put name new contents ((other, old) ∷ files) = elim (Bool-cases (same_name other new)) [
  | inl hit ↦ rw (hit, same_name→≡ other new hit) (twice (same_name new name))
  | inr miss ↦ rw miss (
      ap (λ o. if same_name other name then some old else o) (find_file-put name new contents files)
      ∙ swapped (same_name other name) (same_name new name) (apart miss))
]
  where
    twice :
        (b : Bool)
        → (if b then some contents else find_file name files)
          ≡ (if b then some contents else (if b then some old else find_file name files))
    twice true = refl
    twice false = refl

    apart :
        same_name other new ≡ false
        → same_name other name ≡ true
        → same_name new name ≡ true
        → false ≡ true
    apart miss h k = sym miss ∙ ap (same_name other) (same_name→≡ new name k) ∙ h

    swapped :
        (a b : Bool)
        → (a ≡ true → b ≡ true → false ≡ true)
        → (if a then some old else (if b then some contents else find_file name files))
          ≡ (if b then some contents else (if a then some old else find_file name files))
    swapped true true clash = absurd (never (clash refl refl))
    swapped true false clash = refl
    swapped false b clash = refl

-- A name and the contents of a file that can be sent.
abbrev pub IsSendable : ℕ → List ℕ × List ℕ → Type 0
IsSendable g (name, file) =
    All (λ b. 0 < b) name × (length name ≤ 20) × (length file + 2 < 2 ^ 32) × (length file ≤ g)

-- The buffers that a client has handed to SEND.
abbrev pub chunks_of : Sent → List (List ℕ)
chunks_of (finished chunks) = chunks
chunks_of (exited code) = []
chunks_of unfinished = []

recv_files_step :
    {S : Type 0} (recv : ℕ → S → Received S) (fuel : ℕ) (s s' : S) (l : List (Option S))
    (name contents : List ℕ) (files : Directory)
    → recv_file recv fuel s ≡ stored name contents s'
    → recv_files recv fuel (some s ∷ l) files ≡ recv_files recv fuel l (put name contents files)
unfolding recv_files
recv_files_step recv fuel s s' l name contents files e =
    ap
      (λ o. elim o [
        | stored name contents s' ↦ recv_files recv fuel l (put name contents files)
        | exits code ↦ ended code files
        | stays ↦ serving files
      ])
      e

module _ (sends : List ℕ → Bool) (here : Addr) (c : ConnectedSocket) (fresh : Message) (g : ℕ) where
  -- The connection that a client has made and whose packages have come.
  abbrev pub connection : List ℕ × List ℕ → Option AcceptedSocket
  connection (name, file) =
      some (arrived c fresh (chunks_of (send_file sends (length file) name (length file) file)))

  -- The server serves the clients one after the other and waits for the next: then there stands
  -- under each name the file that was sent last under it, with its contents, or what stood there
  -- before. Every SEND, `fopen` and `fwrite` succeeds, two names are two files and have no zero
  -- byte and 20 bytes at most, and the files have less than 4 GiB and two bytes, and no more bytes
  -- than rounds are allowed for in a loop.
  pub recv_files-send_file :
      (jobs : List (List ℕ × List ℕ)) (files : Directory)
      → ((l : List ℕ) → sends l ≡ true)
      → All (IsSendable g) jobs
      → (files' : Directory) × (recv_files (daemon_recv here) g (map connection jobs) files
          ≡ accepting files')
        × ((name : List ℕ) → find_file name files' ≡ latest name jobs (find_file name files))
  unfolding latest
  recv_files-send_file [] files ok h = (files, unfold recv_files in refl, λ name. refl)
  recv_files-send_file ((new, file) ∷ jobs) files ok (h, hs) =
      let (chunks, s', sent, stores, empty) =
        recv_file-send_file sends here c fresh g new file ok h.0 h.1 h.2 h.3 in
      let (files', serves, found) = recv_files-send_file jobs (put new file files) ok hs in
      (
        files',
        recv_files_step (daemon_recv here) g
              (arrived c fresh (chunks_of (send_file sends (length file) new (length file) file)))
              s' (map connection jobs) new file files
              (ap (λ x. recv_file (daemon_recv here) g (arrived c fresh (chunks_of x))) sent
                ∙ stores)
            ∙ serves,
        λ name. found name ∙ ap (latest name jobs) (find_file-put name new file files),
      )
