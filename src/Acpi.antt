-- ===== src/Acpi.antt =====
-- The tables of the firmware: `find_table` of kernel/src/acpi.cpp over a table of pointers to other
-- tables. A header has 36 bytes, its signature first and its length at 4; the pointers follow.
pub mod Find
use eta_os.Base.{
  ℕ, zero, suc, ◌+◌, ◌-◌, ◌*◌, ◌/◌, ◌^◌, Bool, true, false, not, ◌&&◌, ltb, ◌==◌, if◌then◌else◌,
  u32, u64, sub64,
}
use eta_os.Memory.{Mem, load32, load64}

-- `(length - sizeof(SDTHeader)) / 8` as an `int`; no round is made where it is negative.
abbrev pub entries : Mem → ℕ → ℕ
entries m sdt_header =
    let count = u32 (sub64 (load32 m (sdt_header + 4)) 36 / 8) in
    if ltb count (2 ^ 31) then count else 0

-- `i * 8` for an `int i`, widened to 64 bits.
abbrev pub pointer_offset : ℕ → ℕ
pointer_offset i = let w = u32 (i * 8) in if ltb w (2 ^ 31) then w else w + (2 ^ 64 - 2 ^ 32)

-- The header that pointer `i` leads to.
abbrev pub new_sdt_header : Mem → ℕ → ℕ → ℕ
new_sdt_header m sdt_header i = load64 m (u64 (sdt_header + 36 + pointer_offset i))

-- `unsigned char` against `char`: a `char` from 128 on is negative, and equals none.
abbrev pub same_char : ℕ → ℕ → Bool
same_char a b = (a == b) && ltb b 128

-- The inner loop, from character `j` on.
unfoldable pub is_signature : ℕ → Mem → ℕ → ℕ → ℕ → Bool
is_signature zero m header signature j = false
is_signature (suc left) m header signature j =
    let rest = is_signature left m header signature (j + 1) in
    if not (same_char (m (header + j)) (m (signature + j)))
    then false
    else if j == 3
    then true
    else rest

-- The outer loop, from pointer `i` on.
unfoldable pub find_from : ℕ → Mem → ℕ → ℕ → ℕ → ℕ
unfolding is_signature
find_from zero m sdt_header signature i = 0
find_from (suc left) m sdt_header signature i =
    let rest = find_from left m sdt_header signature (i + 1) in
    let header = new_sdt_header m sdt_header i in
    if is_signature 4 m header signature 0 then header else rest

unfoldable pub find_table : Mem → ℕ → ℕ → ℕ
unfolding find_from
find_table m sdt_header signature = find_from (entries m sdt_header) m sdt_header signature 0
