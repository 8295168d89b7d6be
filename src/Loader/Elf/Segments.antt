-- ===== src/Loader/Elf/Segments.antt =====
-- What the loop over the program headers leaves in memory, where the firmware does what its
-- documents say of reading files and of taking pages.
use eta_os.Base.{
  ℕ, ◌+◌, ◌*◌, ◌≤◌, ◌<◌, max, ◌≡◌, refl, sym, ap, ◌∙◌, ◌≢◌, ◌⊎◌, inl, inr, some, arith, ◌==◌,
  Bool-cases,
}
use eta_os.Loader.Firmware.{Firmware}
use eta_os.Loader.Elf.{ElfFormat, segment_pages, load_segment, visit_header}
use eta_os.Memory.{Mem}

-- The files behind the firmware, and what its services do with memory. AllocatePages at an address
-- leaves the address as it is, and says nothing of what is in the pages.
pub record Disk (fw : Firmware) : Type 0 where
  pub file : ℕ → ℕ → ℕ
  pub file_size : ℕ → ℕ
  pub position : fw.State → ℕ → ℕ
  pub set_position_memory :
      (s : fw.State) (f p : ℕ) → fw.memory (fw.set_position s f p) ≡ fw.memory s
  pub position-set_position : (s : fw.State) (f p : ℕ) → position (fw.set_position s f p) f ≡ p
  pub read_within :
      (s : fw.State) (f n b j : ℕ)
      → j < n
      → position s f + j < file_size f
      → fw.memory (fw.read s f n b) (b + j) ≡ file f (position s f + j)
  pub read_outside :
      (s : fw.State) (f n b x : ℕ)
      → (x < b) ⊎ (b + n ≤ x)
      → fw.memory (fw.read s f n b) x ≡ fw.memory s x
  pub allocate_pages_segment : (s : fw.State) (n a : ℕ) → (fw.allocate_pages s n a).1 ≡ a
  pub allocate_pages_outside :
      (s : fw.State) (n a x : ℕ)
      → (x < a) ⊎ (a + n * 4096 ≤ x)
      → fw.memory (fw.allocate_pages s n a).0 x ≡ fw.memory s x

-- The fields of a program header lie in its `sizeof_phdr` bytes.
pub record IsLayout (elf : ElfFormat) : Type 0 where
  pub fields :
      (m m' : Mem) (h : ℕ)
      → ((x : ℕ) → h ≤ x → x < h + elf.sizeof_phdr → m' x ≡ m x)
      → (elf.p_type m' h ≡ elf.p_type m h)
        × (elf.p_offset m' h ≡ elf.p_offset m h)
        × (elf.p_paddr m' h ≡ elf.p_paddr m h)
        × (elf.p_filesz m' h ≡ elf.p_filesz m h)
        × (elf.p_memsz m' h ≡ elf.p_memsz m h)

module _ (elf : ElfFormat) where
  -- The bytes from `p_paddr` on that the loading of the header at `h` may change.
  abbrev pub span : Mem → ℕ → ℕ
  span m h = max (segment_pages (elf.p_memsz m h) * 4096) (elf.p_filesz m h)

  -- The header at `h` does not change the byte at `x`.
  abbrev pub Off : Mem → ℕ → ℕ → Type 0
  Off m h x =
      (elf.p_type m h ≢ elf.pt_load) ⊎ (x < elf.p_paddr m h) ⊎ (elf.p_paddr m h + span m h ≤ x)

module _ (elf : ElfFormat) (layout : IsLayout elf) (fw : Firmware) (disk : Disk fw)
    (kernel : ℕ) where
  -- The bytes of the header at `h` are those of `m`.
  abbrev pub SameHeader : Mem → Mem → ℕ → Type 0
  SameHeader m m' h = (x : ℕ) → h ≤ x → x < h + elf.sizeof_phdr → m' x ≡ m x

  -- The state after a header, read in `m`.
  pub record IsVisited (m : Mem) (h : ℕ) (s s' : fw.State) : Type 0 where
    pub off : (x : ℕ) → Off elf m h x → fw.memory s' x ≡ fw.memory s x
    pub copied :
        (k : ℕ)
        → elf.p_type m h ≡ elf.pt_load
        → k < elf.p_filesz m h
        → elf.p_offset m h + k < disk.file_size kernel
        → fw.memory s' (elf.p_paddr m h + k) ≡ disk.file kernel (elf.p_offset m h + k)
    pub uncleared :
        (k : ℕ)
        → elf.p_type m h ≡ elf.pt_load
        → elf.p_filesz m h ≤ k
        → fw.memory s' (elf.p_paddr m h + k)
          ≡ fw.memory
              (fw.allocate_pages s (segment_pages (elf.p_memsz m h)) (elf.p_paddr m h)).0
              (elf.p_paddr m h + k)

  -- A segment that is loaded and does not lie on its own header.
  pub load_segment-IsVisited :
      (h : ℕ) (s : fw.State)
      → elf.p_type (fw.memory s) h ≡ elf.pt_load
      → ((x : ℕ) → h ≤ x → x < h + elf.sizeof_phdr → Off elf (fw.memory s) h x)
      → (s' : fw.State) × (load_segment elf fw kernel h s ≡ some (tt, s'))
        × IsVisited (fw.memory s) h s s'
  unfolding load_segment
  load_segment-IsVisited h s loads clear =
      let m = fw.memory s in
      let pages = segment_pages (elf.p_memsz m h) in
      let s₁ = (fw.allocate_pages s pages (elf.p_paddr m h)).0 in
      let segment = (fw.allocate_pages s pages (elf.p_paddr m h)).1 in
      let s₂ = fw.set_position s₁ kernel (elf.p_offset (fw.memory s₁) h) in
      let size = elf.p_filesz (fw.memory s₂) h in
      let at = disk.allocate_pages_segment s pages (elf.p_paddr m h) in
      let moved = disk.set_position_memory s₁ kernel (elf.p_offset (fw.memory s₁) h) in
      let away : (x : ℕ) → Off elf m h x → fw.memory s₁ x ≡ m x = λ x off.
        disk.allocate_pages_outside s pages (elf.p_paddr m h) x (elim off [
          | inl other ↦ absurd (other loads)
          | inr (inl below) ↦ inl below
          | inr (inr above) ↦ inr (omega arith)
        ]) in
      let (_, offset, _, filesz, _) =
        layout.fields m (fw.memory s₁) h λ x l u. away x (clear x l u) in
      let size_same : size ≡ elf.p_filesz m h = rw moved filesz in
      let place = disk.position-set_position s₁ kernel (elf.p_offset (fw.memory s₁) h) in
      let spot : disk.position s₂ kernel ≡ elf.p_offset m h = place ∙ offset in
      (
        fw.read s₂ kernel size segment,
        refl,
        record {
          off = λ x off.
              disk.read_outside s₂ kernel size segment x (elim off [
                | inl other ↦ absurd (other loads)
                | inr (inl below) ↦ inl (omega (arith, at))
                | inr (inr above) ↦ inr (omega (arith, at, size_same))
              ])
              ∙ rw moved (away x off);
          copied = λ k _ below inside.
              ap (λ a. fw.memory (fw.read s₂ kernel size segment) (a + k)) (sym at)
              ∙ disk.read_within s₂ kernel size segment k (omega (arith, size_same))
                  (omega (arith, spot))
              ∙ ap (λ o. disk.file kernel (o + k)) spot;
          uncleared = λ k _ behind.
              disk.read_outside s₂ kernel size segment (elf.p_paddr m h + k)
                (inr (omega (arith, at, size_same)))
              ∙ ap (λ n. n (elf.p_paddr m h + k)) moved;
        },
      )

  pub visit_header-IsVisited :
      (h : ℕ) (s : fw.State)
      → ((x : ℕ) → h ≤ x → x < h + elf.sizeof_phdr → Off elf (fw.memory s) h x)
      → (s' : fw.State) × (visit_header elf fw kernel h s ≡ some (tt, s'))
        × IsVisited (fw.memory s) h s s'
  unfolding visit_header
  visit_header-IsVisited h s clear =
      let m = fw.memory s in
      elim (Bool-cases (elf.p_type m h == elf.pt_load)) [
        | inl loads ↦ rw loads (load_segment-IsVisited h s (ground arith) clear)
        | inr other ↦
            let ne : elf.p_type m h ≢ elf.pt_load = ground arith in
            rw other (
              s,
              refl,
              record {
                off = λ x off. refl;
                copied = λ k loads. absurd (ne loads);
                uncleared = λ k loads. absurd (ne loads);
              },
            )
      ]

  -- With such a firmware, the bytes of a loaded segment behind p_filesz, those of .bss among
  -- them, are not cleared: they stay as AllocatePages left them.
  pub load_segment-uncleared :
      (h : ℕ) (s : fw.State) (k : ℕ)
      → elf.p_type (fw.memory s) h ≡ elf.pt_load
      → ((x : ℕ) → h ≤ x → x < h + elf.sizeof_phdr → Off elf (fw.memory s) h x)
      → elf.p_filesz (fw.memory s) h ≤ k
      → let a = elf.p_paddr (fw.memory s) h in
        let pages = segment_pages (elf.p_memsz (fw.memory s) h) in
        (s' : fw.State) × (load_segment elf fw kernel h s ≡ some (tt, s'))
        × (fw.memory s' (a + k) ≡ fw.memory (fw.allocate_pages s pages a).0 (a + k))
  load_segment-uncleared h s k loads clear behind =
      let (s', done, visited) = load_segment-IsVisited h s loads clear in
      (s', done, visited.uncleared k loads behind)
