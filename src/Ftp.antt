-- ===== src/Ftp.antt =====
-- Proj1/ftpc.c and Proj1/ftps.c: the file transfer over the calls of tcpudp.c. The server is a
-- function of what RECV does; Ftp/Service is the RECV of a daemon. Failures of `fopen` and `fwrite`
-- are not modelled, and two names are two files (they name files of the server's directory).
pub mod Service
pub mod Fields
pub mod Loops
pub mod Transfer
pub mod Sessions
pub mod Stuck
mod Tests
use network_proj.Prelude.{
  ℕ, zero, suc, ◌+◌, ◌-◌, ◌*◌, ◌/◌, ◌%◌, ◌^◌, bit_or, List, [], ◌∷◌, ◌++◌, Option, none, some, Bool,
  true, false, ◌&&◌, ◌==◌, ltb, if◌then◌else◌, length, take, drop, replicate, get_or,
}
use network_proj.Tcpd.Message.{buf_len}

-- The client ends with what it has handed to SEND, or the process exits with a code, or its loop
-- goes on after all rounds that were allowed for.
pub data Sent : Type 0 where
  finished : List (List ℕ) → Sent
  exited : ℕ → Sent
  unfinished : Sent

abbrev pub after : List ℕ → Sent → Sent
after chunk (finished l) = finished (chunk ∷ l)
after chunk (exited code) = exited code
after chunk unfinished = unfinished

-- `buf[0]=(file_size>>24)&0xff; ...`
unfoldable pub size_bytes : ℕ → List ℕ
size_bytes n = n / 2 ^ 24 % 256 ∷ n / 2 ^ 16 % 256 ∷ n / 2 ^ 8 % 256 ∷ n % 256 ∷ []

-- `bzero(buf,BUF_LEN); strcpy(buf,file_name);` and the 20 bytes that are sent of it.
unfoldable pub name_bytes : List ℕ → List ℕ
name_bytes name = take 20 (name ++ replicate buf_len 0)

-- What one round of the client's loop reads and sends, at most BUF_LEN bytes; `rest` is what
-- `fread` has not read.
abbrev pub read_now : ℕ → List ℕ → List ℕ
read_now left rest =
    let r_val = length (take buf_len rest) in take (if ltb left r_val then left else r_val) rest

-- `sends` says which calls of SEND do not return a negative number.
module _ (sends : List ℕ → Bool) where
  -- The `while` over `file_left`, on fuel.
  pub send_loop : ℕ → ℕ → List ℕ → Sent
  send_loop fuel zero rest = finished []
  send_loop zero (suc left) rest = unfinished
  send_loop (suc fuel) (suc left) rest =
      let chunk = read_now (suc left) rest in
      let others = send_loop fuel (suc left - length chunk) (drop buf_len rest) in
      if sends chunk then after chunk others else exited 1

  -- The calls of SEND of the client for a file of that name; `size` is what `stat` reports.
  pub send_file : ℕ → List ℕ → ℕ → List ℕ → Sent
  send_file fuel name size file =
      if sends (size_bytes size)
      then if sends (name_bytes name)
        then after (size_bytes size) (after (name_bytes name) (send_loop fuel size file))
        else exited 1
      else exited 1

-- `file_size=(buf_in[0]<<24)|(buf_in[1]<<16)|(buf_in[2]<<8)|(buf_in[3])`
unfoldable pub read_size : List ℕ → ℕ
read_size b =
    bit_or (bit_or (bit_or (get_or b 0 0 * 2 ^ 24) (get_or b 1 0 * 2 ^ 16)) (get_or b 2 0 * 2 ^ 8))
      (get_or b 3 0)

-- The string at the start of a buffer: the bytes before the first zero.
unfoldable pub c_string : List ℕ → List ℕ
c_string [] = []
c_string (b ∷ bs) = if b == 0 then [] else b ∷ c_string bs

-- What a call of RECV does, given and leaving the state of the connection: it returns a negative
-- number, or bytes and their count, or it waits for ever.
pub data Received (S : Type 0) : Type 0 where
  failed : S → Received S
  returned : List ℕ → S → Received S
  waits : Received S

-- How the `while` of the server ends: it leaves the loop with what it has written into the file, or
-- waits in RECV for ever, or goes on after all rounds that were allowed for.
pub data Loop (S : Type 0) : Type 0 where
  closed : List ℕ → S → Loop S
  blocked : Loop S
  goes_on : Loop S

abbrev pub written_with : {S : Type 0} → List ℕ → Loop S → Loop S
written_with chunk (closed written s) = closed (chunk ++ written) s
written_with chunk blocked = blocked
written_with chunk goes_on = goes_on

-- How a connection ends: its file is closed, or the process exits, or it stays in RECV or in its
-- loop.
pub data Served (S : Type 0) : Type 0 where
  stored : List ℕ → List ℕ → S → Served S
  exits : ℕ → Served S
  stays : Served S

abbrev pub served : {S : Type 0} → List ℕ → Loop S → Served S
served name (closed written s) = stored name written s
served name blocked = stays
served name goes_on = stays

abbrev pub request : ℕ → ℕ
request left = if ltb left buf_len then left else buf_len

-- `if(r_val>file_left) r_val=file_left;`
abbrev pub at_most : ℕ → List ℕ → List ℕ
at_most left bytes = take (if ltb left (length bytes) then left else length bytes) bytes

-- The files that are there, each under its name.
abbrev pub Directory : Type 0
Directory = List (List ℕ × List ℕ)

unfoldable pub same_name : List ℕ → List ℕ → Bool
same_name [] [] = true
same_name [] (d ∷ l) = false
same_name (c ∷ k) [] = false
same_name (c ∷ k) (d ∷ l) = (c == d) && same_name k l

-- `fopen(name,"wb")` and what is written until `fclose`: the old contents are lost.
unfoldable pub put : List ℕ → List ℕ → Directory → Directory
put name contents [] = (name, contents) ∷ []
put name contents ((other, old) ∷ files) =
    if same_name other name
    then (name, contents) ∷ files
    else (other, old) ∷ put name contents files

-- Where the loop over the connections stands: it waits in ACCEPT, the process has exited, or it
-- serves a connection for ever; with the files of the connections before.
pub data Server : Type 0 where
  accepting : Directory → Server
  ended : ℕ → Directory → Server
  serving : Directory → Server

module _ {S : Type 0} (recv : ℕ → S → Received S) where
  -- The `while` of the server, on fuel.
  unfoldable pub recv_loop : ℕ → ℕ → S → Loop S
  recv_loop fuel zero s = closed [] s
  recv_loop zero (suc left) s = goes_on
  recv_loop (suc fuel) (suc left) s = elim (recv (request (suc left)) s) [
    | waits ↦ blocked
    | failed s' ↦ closed [] s'
    | returned bytes s' ↦
        let now = at_most (suc left) bytes in
        written_with now (recv_loop fuel (suc left - length now) s')
  ]

  -- One connection.
  unfoldable pub recv_file : ℕ → S → Served S
  recv_file fuel s = elim (recv 4 s) [
    | waits ↦ stays
    | failed s' ↦ exits 1
    | returned size s' ↦ elim (recv 20 s') [
      | waits ↦ stays
      | failed s'' ↦ exits 1
      | returned name s'' ↦ served (c_string name) (recv_loop fuel (read_size size) s'')
    ]
  ]

  -- The loop over the connections; `none` is an ACCEPT that fails.
  unfoldable pub recv_files : ℕ → List (Option S) → Directory → Server
  recv_files fuel [] files = accepting files
  recv_files fuel (none ∷ l) files = ended 1 files
  recv_files fuel (some s ∷ l) files = elim (recv_file fuel s) [
    | stored name contents s' ↦ recv_files fuel l (put name contents files)
    | exits code ↦ ended code files
    | stays ↦ serving files
  ]
