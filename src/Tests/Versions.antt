-- ===== src/Tests/Versions.antt =====
-- Versions of pages.
use atomix_db.Prelude.{◌≡◌, ltb, arith}
use atomix_db.FreeList.{version_before}
use atomix_db.FreeList.Versions.{version_before_lem}

version_before_lem_example : version_before 3 18 ≡ ltb 3 18
version_before_lem_example =
    version_before_lem 3 18 (omega arith) (omega arith) (omega arith) (omega arith)
