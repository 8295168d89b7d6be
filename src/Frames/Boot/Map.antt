-- ===== src/Frames/Boot/Map.antt =====
-- Which pages are locked once the memory map has been read.
use eta_os.Base.{
  ℕ, zero, suc, ◌+◌, ◌*◌, ◌/◌, ◌^◌, ◌≤◌, ◌<◌, ◌≡◌, ap, ◌∙◌, inl, inr, Bool, false, not, ◌&&◌, ◌||◌,
  map, arith, ltb, leb, ◌==◌, if◌then◌else◌, Bool-cases,
}
use eta_os.Memory.{Mem, store8, load64}
use eta_os.Memory.Words.{load32_same, load64_same}
use eta_os.Bitmap.{Bitmap, in_range}
use eta_os.Frames.{Kernel, page_locked, unreserve_pages}
use eta_os.Frames.Ranges.{among, unreserve_pages-among, unreserve_pages-page_bitmap}
use eta_os.Frames.Boot.{
  EfiMemoryDescriptor, MemMap, entry_addr, memory_descriptor, conventional, clear_buffer,
  unreserve_entry, unreserve_conventional,
}
use eta_os.Frames.Boot.Writes.{Outside, unreserve_pages-Keeps}

-- Page `j` lies in conventional memory, by one of the `left` descriptors from number `i` on.
unfoldable pub conventional_page : Mem → MemMap → ℕ → ℕ → ℕ → Bool
conventional_page m map zero i j = false
conventional_page m map (suc left) i j =
    ((memory_descriptor m map i).type == conventional
      && among (memory_descriptor m map i).phys_addr (memory_descriptor m map i).num_pages j)
    || conventional_page m map left (i + 1) j

-- The bitmap's bytes do not meet the descriptor at `i`.
abbrev pub MapOutside : Bitmap → MemMap → ℕ → Type 0
MapOutside b map entries =
    (i : ℕ) → i < entries → (x : ℕ) → entry_addr map i ≤ x → x < entry_addr map i + 40 → Outside b x

-- Conventional memory comes in segments below 2 GiB that end in the address space.
abbrev pub SegmentsFit : Mem → MemMap → ℕ → Type 0
SegmentsFit m map entries =
    (i : ℕ)
    → i < entries
    → ((memory_descriptor m map i).num_pages ≤ 2 ^ 19)
      × ((memory_descriptor m map i).phys_addr + (memory_descriptor m map i).num_pages * 4096
          ≤ 2 ^ 64)

-- The bitmap is `b`, and outside it memory is as in `m`.
abbrev pub Agrees : Bitmap → Mem → Kernel → Type 0
Agrees b m s = (s.page_bitmap ≡ b) × ((x : ℕ) → Outside b x → s.mem x ≡ m x)

module _ (m m' : Mem) (map : MemMap) (i : ℕ)
    (same : (x : ℕ) → entry_addr map i ≤ x → x < entry_addr map i + 40 → m' x ≡ m x) where
  word_same :
      (k : ℕ) → k + 8 ≤ 40 → load64 m' (entry_addr map i + k) ≡ load64 m (entry_addr map i + k)
  word_same k fits =
      load64_same {m = m} {m' = m'} (entry_addr map i + k)
        (λ x p q. same x (omega arith) (omega arith))

  entry_same : memory_descriptor m' map i ≡ memory_descriptor m map i
  entry_same =
      let type_same =
        load32_same {m = m} {m' = m'} (entry_addr map i)
          (λ x p q. same x (omega arith) (omega arith)) in
      ground (
        arith,
        type_same,
        word_same 8 (omega arith),
        word_same 16 (omega arith),
        word_same 24 (omega arith),
        word_same 32 (omega arith),
      )

-- A round, as a function of its descriptor.
given : Kernel → EfiMemoryDescriptor → Kernel
given s d = if d.type == conventional then unreserve_pages s d.phys_addr d.num_pages else s

module _ (b : Bitmap) (m : Mem) (map : MemMap) (entries : ℕ) (small : b.size < 2 ^ 49)
    (outside : MapOutside b map entries) (fit : SegmentsFit m map entries) where
  unreserve_entry-Agrees :
      (i : ℕ) (s : Kernel) → Agrees b m s → Agrees b m (unreserve_entry s map i)
  unreserve_entry-Agrees i s (e, same) =
      elim (Bool-cases ((memory_descriptor s.mem map i).type == conventional)) [
        | inl yes' ↦ rw yes' (
          unreserve_pages-page_bitmap s (memory_descriptor s.mem map i).phys_addr
                (memory_descriptor s.mem map i).num_pages
              ∙ e,
          λ x out.
              (unreserve_pages-Keeps b x (m x) small out s (memory_descriptor s.mem map i).phys_addr
                (memory_descriptor s.mem map i).num_pages (e, same x out)).1,
        )
        | inr no' ↦ rw no' (e, same)
      ]

  page_locked-unreserve_entry :
      (i j : ℕ) (s : Kernel)
      → i < entries
      → Agrees b m s
      → page_locked (unreserve_entry s map i) j ≡ (
          page_locked s j
          && not (
              in_range b j
              && (((memory_descriptor m map i).type == conventional)
                  && among
                      (memory_descriptor m map i).phys_addr
                      (memory_descriptor m map i).num_pages
                      j)))
  unfolding given
  page_locked-unreserve_entry i j s l (e, same) =
      let here = entry_same m s.mem map i (λ x p q. same x (outside i l x p q)) in
      ap (λ d. page_locked (given s d) j) here
      ∙ (ground (
        arith,
        unreserve_pages-among s (memory_descriptor m map i).phys_addr
            (memory_descriptor m map i).num_pages j (fit i l).0 (fit i l).1,
      ))

  pub page_locked-unreserve_conventional :
      (left i j : ℕ) (s : Kernel)
      → i + left ≤ entries
      → Agrees b m s
      → page_locked (unreserve_conventional left i map s) j
        ≡ (page_locked s j && not (in_range b j && conventional_page m map left i j))
  unfolding unreserve_conventional conventional_page
  page_locked-unreserve_conventional zero i j s l agrees = ground arith
  page_locked-unreserve_conventional (suc left) i j s l agrees =
      page_locked-unreserve_conventional left (i + 1) j (unreserve_entry s map i) (omega arith)
        (unreserve_entry-Agrees i s agrees)
      ∙ rw (page_locked-unreserve_entry i j s (omega arith) agrees) (ground arith)

  pub unreserve_conventional-Agrees :
      (left i : ℕ) (s : Kernel) → Agrees b m s → Agrees b m (unreserve_conventional left i map s)
  unfolding unreserve_conventional
  unreserve_conventional-Agrees zero i s agrees = agrees
  unreserve_conventional-Agrees (suc left) i s agrees =
      unreserve_conventional-Agrees left (i + 1) (unreserve_entry s map i)
        (unreserve_entry-Agrees i s agrees)

-- The bitmap that `read_efi_memory_map` builds for `total` bytes of memory at `buffer`.
abbrev pub boot_bitmap : ℕ → ℕ → Bitmap
boot_bitmap total buffer = record { size = total / 4096 / 8 + 1; buffer = buffer }

pub clear_buffer_lem :
    (left i buffer : ℕ) (m : Mem) (x : ℕ)
    → clear_buffer left i buffer m x
      ≡ (if leb (buffer + i) x && ltb x (buffer + i + left) then 0 else m x)
unfolding clear_buffer store8
clear_buffer_lem zero i buffer m x = ground arith
clear_buffer_lem (suc left) i buffer m x =
    ground (arith, clear_buffer_lem left (i + 1) buffer (store8 m (buffer + i) 0) x)
