-- ===== src/Ftp/Tests.antt =====
-- The transfer of files of three bytes and of none.
use network_proj.Prelude.{
  ℕ, refl, Bool, true, List, [], ◌∷◌, Option, some, none, arith, All, map, ◌<◌, ◌≡◌, take,
}
use network_proj.Net.{Addr}
use network_proj.Tcpd.Message.{Message}
use network_proj.Tcpd.State.{ConnectedSocket, AcceptedSocket}
use network_proj.Ftp.{
  finished, unfinished, send_loop, send_file, recv_file, recv_files, recv_loop, stored, Received,
  returned, failed, waits, Directory, accepting, c_string, read_size,
}
use network_proj.Ftp.Service.{daemon_recv, Ready}
use network_proj.Ftp.Transfer.{arrived, recv_file-send_file}
use network_proj.Ftp.Sessions.{connection, find_file, latest, recv_files-send_file}
use network_proj.Ftp.Stuck.{send_loop_stuck}

abbrev here : Addr
here = record { family = 2; port = 7; addr = 1 }

abbrev connected : ConnectedSocket
connected = record {
  socket_fd = 3;
  session = 9;
  base = 0;
  min_seq = 0;
  server_addr = here;
  packages = [];
  pending_packages = [];
}

abbrev fresh : Message
fresh = record {
  header = here;
  check_sum = 0;
  session = 0;
  seq_num = 0;
  padding = [];
  len = 0;
  body = [];
}

abbrev file_name : List ℕ
file_name = 97 ∷ 46 ∷ 99 ∷ []

abbrev contents : List ℕ
contents = 1 ∷ 0 ∷ 255 ∷ []

abbrev all_sent : List ℕ → Bool
all_sent l = true

-- Scripted answers of RECV.
abbrev scripted : ℕ → List (Option (List ℕ)) → Received (List (Option (List ℕ)))
scripted n [] = waits
scripted n (none ∷ l) = failed l
scripted n (some b ∷ l) = returned (take n b) l

-- An error in the middle of a file closes it with what has come; a short answer is made up for.
breaks :
    recv_file scripted 9
      (some (0 ∷ 0 ∷ 0 ∷ 3 ∷ []) ∷ some (97 ∷ 0 ∷ []) ∷ some (1 ∷ []) ∷ none ∷ [])
    ≡ stored (97 ∷ []) (1 ∷ []) []
unfolding recv_file recv_loop read_size c_string
breaks = ground arith

nonzero_name : All (λ b. 0 < b) file_name
nonzero_name = (omega arith, (omega arith, (omega arith, tt)))

recv_file-send_file_example :
    (chunks : List (List ℕ)) × (s' : AcceptedSocket) × (send_file all_sent 3 file_name 3 contents
      ≡ finished chunks)
    × (recv_file (daemon_recv here) 3 (arrived connected fresh chunks)
        ≡ stored file_name contents s')
    × Ready here [] s'
recv_file-send_file_example =
    recv_file-send_file all_sent here connected fresh 3 file_name contents (λ l. refl) nonzero_name
      (omega arith) (omega arith) (omega arith)

send_loop_stuck_example : send_loop all_sent 1000 4 contents ≡ unfinished
send_loop_stuck_example = send_loop_stuck all_sent 1000 4 contents (λ l. refl) (omega arith)

-- Two files of one name: the second takes the place of the first.
abbrev jobs : List (List ℕ × List ℕ)
jobs = (file_name, contents) ∷ (file_name, []) ∷ []

recv_files-send_file_example :
    (files' : Directory) × (recv_files
        (daemon_recv here)
        3
        (map (connection all_sent here connected fresh 3) jobs)
        []
      ≡ accepting files')
    × ((name : List ℕ) → find_file name files' ≡ latest name jobs (find_file name []))
recv_files-send_file_example =
    recv_files-send_file all_sent here connected fresh 3 jobs [] (λ l. refl)
      (
        (nonzero_name, omega arith, omega arith, omega arith),
        ((nonzero_name, omega arith, omega arith, omega arith), tt),
      )
