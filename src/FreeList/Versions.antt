-- ===== src/FreeList/Versions.antt =====
-- `versionBefore` of database/free_list.go, and what `Pop` gives by it.
use atomix_db.Prelude.{ℕ, ◌+◌, ◌≤◌, ◌<◌, ◌≡◌, ltb, arith}
use atomix_db.FreeList.{version_before}

-- On numbers of 64 bits that are less than 2 ^ 63 apart, `versionBefore` is the order of the numbers.
pub version_before_lem :
    (u ver : ℕ)
    → u < 18446744073709551616
    → ver < 18446744073709551616
    → u < ver + 9223372036854775808
    → ver ≤ u + 9223372036854775808
    → version_before u ver ≡ ltb u ver
unfolding version_before
version_before_lem u ver hu hv near near' = ground arith
