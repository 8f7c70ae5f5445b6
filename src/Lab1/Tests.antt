-- ===== src/Lab1/Tests.antt =====
-- Lab1/count.c on a small file, and the theorem there.
use network_proj.Prelude.{
  ltb, ◌^◌, Bool, arith, ◌≡◌, refl, true, List, ℕ, [], ◌∷◌, ◌++◌, none, some,
}
use network_proj.Ftp.{c_string}
use network_proj.Lab1.{
  starts_with, strstr, search_loop, search, report, counted, returned, faults, read_and_search,
  count_matches,
}
use network_proj.Lab1.Occurrences.{occurrences, count_matches-occurrences}

-- "aaa"
abbrev in_file : List ℕ
in_file = 97 ∷ 97 ∷ 97 ∷ []

abbrev all_given : ℕ → Bool
all_given size = true

-- `stat` fails: the buffer of 2 ^ 64 - 1 bytes is not given, and NULL is written through.
no_stat : count_matches (λ size. ltb size (2 ^ 63)) (97 ∷ []) none (some in_file) true [] ≡ faults
unfolding count_matches read_and_search
no_stat = refl

-- "aa" stands in "aaa" twice, and a third time if the memory behind goes on with an "a".
overlaps :
    count_matches all_given (97 ∷ 97 ∷ []) (some 3) (some in_file) true (0 ∷ []) ≡ counted 3 2
unfolding count_matches read_and_search search search_loop strstr starts_with c_string report
overlaps = refl

reads_on :
    count_matches all_given (97 ∷ 97 ∷ []) (some 3) (some in_file) true (97 ∷ 0 ∷ []) ≡ counted 3 3
unfolding count_matches read_and_search search search_loop strstr starts_with c_string report
reads_on = refl

no_file : count_matches all_given (97 ∷ []) none none true [] ≡ returned 2
unfolding count_matches
no_file = refl

count_matches-occurrences_example :
    count_matches all_given (97 ∷ 97 ∷ []) (some 3) (some in_file) true (0 ∷ [])
    ≡ counted 3 (occurrences (97 ∷ 97 ∷ []) (c_string (in_file ++ (0 ∷ []))))
count_matches-occurrences_example =
    count_matches-occurrences all_given 97 (97 ∷ []) in_file (0 ∷ []) 3 refl (omega arith)
      (omega arith)
