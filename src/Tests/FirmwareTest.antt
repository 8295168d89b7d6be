-- ===== src/Tests/FirmwareTest.antt =====
-- The tables of the firmware, the timer and the boot loader.
use eta_os.Base.{
  ℕ, ◌%◌, max, ◌≡◌, refl, ◌⊎◌, inl, inr, List, [], ◌∷◌, ◌++◌, arith, ◌==◌, if◌then◌else◌,
}
use eta_os.Memory.{Mem, load16, load32, load64}
use eta_os.Acpi.{entries, find_table}
use eta_os.Acpi.Find.{FoundAt, Missing, find_table-FoundAt}
use eta_os.Timer.{Pit, set_divisor}
use eta_os.Timer.Divisor.{set_divisor-written}
use eta_os.Loader.{strncmp, find_rsdp}
use eta_os.Loader.Compare.{strncmp-SameBytes}
use eta_os.Loader.Rsdp.{ComparesGuids, IsLastTaken, find_rsdp-IsLastTaken}

-- A table at 0 with two pointers, to a table at 256 and to one at 512 with the signature MCFG,
-- which is at 1024 too.
abbrev bytes : List (ℕ × ℕ) → Mem
bytes [] x = 0
bytes ((a, v) ∷ rest) x = if x == a then v else bytes rest x

abbrev tables : Mem
tables = bytes (
    (4, 52)
    ∷ (37, 1)
    ∷ (45, 2)
    ∷ (256, b'A')
    ∷ (512, b'M')
    ∷ (513, b'C')
    ∷ (514, b'F')
    ∷ (515, b'G')
    ∷ (1024, b'M')
    ∷ (1025, b'C')
    ∷ (1026, b'F')
    ∷ (1027, b'G')
    ∷ [])

found_mcfg : find_table tables 0 1024 ≡ 512
unfolding find_table load64 load32 load16
found_mcfg = refl

find_table-FoundAt_example :
    FoundAt tables 0 1024 0 (entries tables 0) (find_table tables 0 1024)
    ⊎ Missing tables 0 1024 0 (entries tables 0) (find_table tables 0 1024)
find_table-FoundAt_example = find_table-FoundAt tables 0 1024

abbrev pit : Pit
pit = record { divisor = 65535; written = [] }

-- 1000 Hz are asked for, the divisor 1193 = 4 * 256 + 169; the timer is told 169.
set_divisor-written_example :
    (set_divisor pit 1193).written
    ≡ (([] ++ (record { port = 0x40; value = max 1193 100 % 256 } ∷ []))
        ++ (record { port = 0x80; value = 0 } ∷ []))
      ++ (record { port = 0x40; value = 0 } ∷ [])
set_divisor-written_example = set_divisor-written pit 1193

-- `strncmp` on 16 bytes as a CompareGuid, and two records at 2048.
abbrev same_guid : Mem → ℕ → ℕ → ℕ
same_guid m a b = if strncmp 16 m a b == 0 then 1 else 0

same_guid-ComparesGuids : ComparesGuids same_guid
same_guid-ComparesGuids = record {
  equal = λ m a b same. elim (strncmp-SameBytes 16 m a b) [
    | inl (one, _) ↦ rw one refl
    | inr (none_is, not_same) ↦ absurd (not_same same)
  ];
  zero_equal = λ m a b is_zero. elim (strncmp-SameBytes 16 m a b) [
    | inl (_, same) ↦ same
    | inr (none_is, not_same) ↦ absurd (ground (arith, none_is, is_zero))
  ];
}

find_rsdp-IsLastTaken_example :
    IsLastTaken same_guid same_guid-ComparesGuids 4096 1024 tables 2048 0 2 0
      (find_rsdp same_guid 4096 1024 tables 2048 2)
find_rsdp-IsLastTaken_example =
    find_rsdp-IsLastTaken same_guid same_guid-ComparesGuids 4096 1024 tables 2048 2
