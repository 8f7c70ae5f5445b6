-- ===== src/Lab1.antt =====
-- Lab1/count.c: how often a string occurs in a file, overlaps included. `behind` is the memory that
-- follows what is read of the file; nothing ends the string in the buffer.
pub mod Occurrences
mod Tests
use network_proj.Prelude.{
  ℕ, zero, suc, ◌+◌, ◌-◌, ◌^◌, List, [], ◌∷◌, ◌++◌, Option, none, some, Bool, true, false, ◌&&◌,
  ◌==◌, if◌then◌else◌, length, drop, ltb, leb,
}
use network_proj.Ftp.{c_string}

unfoldable pub starts_with : List ℕ → List ℕ → Bool
starts_with [] text = true
starts_with (c ∷ needle) [] = false
starts_with (c ∷ needle) (d ∷ text) = (c == d) && starts_with needle text

-- `strstr`: the string from the first place on where the other occurs.
unfoldable pub strstr : List ℕ → List ℕ → Option (List ℕ)
strstr [] needle = if starts_with needle [] then some [] else none
strstr (c ∷ text) needle =
    let rest = strstr text needle in if starts_with needle (c ∷ text) then some (c ∷ text) else rest

-- The loop that counts, from `search_ptr` and `search_count` on. `none`: not enough fuel.
unfoldable pub search_loop : ℕ → List ℕ → Option (List ℕ) → ℕ → Option ℕ
search_loop fuel search_string none search_count = some search_count
search_loop zero search_string (some search_ptr) search_count = none
search_loop (suc fuel) search_string (some search_ptr) search_count =
    search_loop fuel search_string (strstr (drop 1 search_ptr) search_string) (search_count + 1)

-- The string that is searched is at most as long as its memory, and so is its count.
unfoldable pub search : List ℕ → List ℕ → Option ℕ
search content search_string =
    search_loop (length content) search_string (strstr content search_string) 0

-- How the program ends: it writes the size and the count, or `main` returns a code, or it follows a
-- NULL pointer, writes past its buffer or overflows `in_file_len`, or its loop goes on.
pub data Ending : Type 0 where
  counted : ℕ → ℕ → Ending
  returned : ℕ → Ending
  faults : Ending
  unfinished : Ending

unfoldable pub report : ℕ → Option ℕ → Ending
report in_file_size none = unfinished
report in_file_size (some search_count) = counted in_file_size search_count

-- The size is -1 where `stat` fails.
abbrev pub stat_size : Option ℕ → ℕ
stat_size none = 2 ^ 64 - 1
stat_size (some size) = size

-- The file is read into the buffer, which must hold it, with an `int` for its length.
abbrev pub fits : ℕ → List ℕ → Bool
fits in_file_size in_file = leb (length in_file) in_file_size && ltb (length in_file) (2 ^ 31)

-- `malloc` says for which sizes it does not return NULL.
module _ (malloc : ℕ → Bool) where
  unfoldable pub read_and_search : ℕ → List ℕ → List ℕ → List ℕ → Ending
  read_and_search in_file_size search_string in_file behind =
      if malloc in_file_size && fits in_file_size in_file
      then report in_file_size (search (c_string (in_file ++ behind)) search_string)
      else faults

  -- `main` with the string that it searches for, what `stat` says, the bytes of the first file and
  -- whether the second can be opened.
  unfoldable pub count_matches : List ℕ → Option ℕ → Option (List ℕ) → Bool → List ℕ → Ending
  count_matches search_string stat none out_file behind = returned 2
  count_matches search_string stat (some in_file) false behind = returned 3
  count_matches [] stat (some in_file) true behind = returned 4
  count_matches (c ∷ search_string) stat (some in_file) true behind =
      read_and_search (stat_size stat) (c ∷ search_string) in_file behind
