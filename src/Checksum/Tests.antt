-- ===== src/Checksum/Tests.antt =====
-- Both checksums on a buffer of six bytes.
use network_proj.Prelude.{ℕ, ◌%◌, ◌≡◌, List, [], ◌∷◌, ◌==◌, arith}
use network_proj.Checksum.{checksum32}
use network_proj.Checksum.Range.{is_some, checksum32_stays}

abbrev six_bytes : List ℕ
six_bytes = 1 ∷ 2 ∷ 3 ∷ 4 ∷ 5 ∷ 6 ∷ []

checksum32_stays_example : is_some (checksum32 0 six_bytes 6) ≡ (6 % 4 == 0)
checksum32_stays_example = checksum32_stays 0 six_bytes (omega arith)
