-- ===== src/Lab1/Occurrences.antt =====
-- The count of Lab1/count.c against the number of the places where the string stands.
use network_proj.Prelude.{
  ℕ, Bool, ◌<◌, ◌^◌, zero, suc, ◌+◌, ◌≤◌, ◌≡◌, ap, ◌∙◌, List, [], ◌∷◌, ◌++◌, some, true, inl, inr,
  if◌then◌else◌, arith, Bool-cases, length,
}
use network_proj.Ftp.{c_string}
use network_proj.Lab1.{
  starts_with, strstr, search_loop, search, report, counted, fits, read_and_search, count_matches,
}

-- The places of a text from which on it starts with a string.
unfoldable pub occurrences : List ℕ → List ℕ → ℕ
occurrences needle [] = 0
occurrences needle (c ∷ text) =
    if starts_with needle (c ∷ text) then suc (occurrences needle text) else occurrences needle text

search_loop-occurrences :
    (c : ℕ) (needle text : List ℕ) (fuel n : ℕ)
    → length text ≤ fuel
    → search_loop fuel (c ∷ needle) (strstr text (c ∷ needle)) n
      ≡ some (n + occurrences (c ∷ needle) text)
unfolding search_loop strstr occurrences
search_loop-occurrences c needle [] fuel n h =
    let same : n ≡ n + 0 = omega arith in unfold starts_with in ap some same
search_loop-occurrences c needle (d ∷ text) zero n h = absurd (omega arith)
search_loop-occurrences c needle (d ∷ text) (suc fuel) n h =
    elim (Bool-cases (starts_with (c ∷ needle) (d ∷ text))) [
      | inl here ↦
          let more : n + 1 + occurrences (c ∷ needle) text
              ≡ n + suc (occurrences (c ∷ needle) text) =
            omega arith in
          rw here (search_loop-occurrences c needle text fuel (n + 1) (omega arith) ∙ ap some more)
      | inr elsewhere ↦
          rw elsewhere (search_loop-occurrences c needle text (suc fuel) n (omega arith))
    ]

all_fits :
    (size : ℕ) (in_file : List ℕ)
    → length in_file ≤ size
    → length in_file < 2 ^ 31
    → fits size in_file ≡ true
all_fits size in_file room short = ground arith

-- The program writes the size that `stat` has given and the number of the places, overlapping ones
-- included, at which the string that is searched for stands in what is read: the bytes of the file
-- up to a zero, and those of the memory behind it where the file has no zero. The string is not
-- empty, both files can be opened, `stat` succeeds, `malloc` gives a buffer of that size, and the
-- file is not longer than it and has less than 2 ^ 31 bytes.
pub count_matches-occurrences :
    (malloc : ℕ → Bool) (c : ℕ) (search_string in_file behind : List ℕ) (size : ℕ)
    → malloc size ≡ true
    → length in_file ≤ size
    → length in_file < 2 ^ 31
    → count_matches malloc (c ∷ search_string) (some size) (some in_file) true behind
      ≡ counted size (occurrences (c ∷ search_string) (c_string (in_file ++ behind)))
unfolding count_matches read_and_search search report
count_matches-occurrences malloc c search_string in_file behind size given room short =
    let text = c_string (in_file ++ behind) in
    let number = occurrences (c ∷ search_string) text in
    let same : 0 + number ≡ number = omega arith in
    rw (given, all_fits size in_file room short)
      (ap (report size)
        (search_loop-occurrences c search_string text (length text) 0 (omega arith) ∙ ap some same))
