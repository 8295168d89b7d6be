-- ===== src/Loader/Elf/Loop.antt =====
-- The loop over the program headers loads every segment, where no segment lies on a header.
use eta_os.Base.{
  ℕ, zero, suc, ◌+◌, ◌*◌, ◌^◌, ◌≤◌, ◌<◌, ◌≡◌, refl, sym, ap, ◌∙◌, inl, inr, true, some, arith, ltb,
  ◌==◌, Bool-cases, u64,
}
use eta_os.Loader.Firmware.{Firmware, ◌>>=◌}
use eta_os.Loader.Elf.{ElfFormat, visit_header, visit_headers}
use eta_os.Memory.{Mem}
use eta_os.Loader.Elf.Segments.{Disk, IsLayout, Off, visit_header-IsVisited}
use eta_os.Loader.Elf.Segments

module _ (elf : ElfFormat) (layout : IsLayout elf) (fw : Firmware) (disk : Disk fw) (kernel : ℕ)
    (m : Mem) where
  -- The same, for a header that is as it was in `m`.
  visit_header-from :
      (h : ℕ) (s : fw.State)
      → Segments.SameHeader elf layout fw disk kernel m (fw.memory s) h
      → ((x : ℕ) → h ≤ x → x < h + elf.sizeof_phdr → Off elf m h x)
      → (s' : fw.State) × (visit_header elf fw kernel h s ≡ some (tt, s'))
        × ((x : ℕ) → Off elf m h x → fw.memory s' x ≡ fw.memory s x)
        × ((k : ℕ)
            → elf.p_type m h ≡ elf.pt_load
            → k < elf.p_filesz m h
            → elf.p_offset m h + k < disk.file_size kernel
            → fw.memory s' (elf.p_paddr m h + k) ≡ disk.file kernel (elf.p_offset m h + k))
  visit_header-from h s same clear =
      let now = fw.memory s in
      let (type, offset, paddr, filesz, memsz) = layout.fields m now h same in
      let off : (x : ℕ) → Off elf m h x → Off elf now h x = λ x o. elim o [
        | inl other ↦ inl (λ e. other (sym type ∙ e))
        | inr (inl below) ↦ inr (inl (omega (arith, paddr)))
        | inr (inr above) ↦ inr (inr (rw (paddr, memsz, filesz) above))
      ] in
      let (s', done, v) =
        visit_header-IsVisited elf layout fw disk kernel h s λ x l u. off x (clear x l u) in
      (
        s',
        done,
        λ x o. v.off x (off x o),
        λ k loads below inside.
            ap (λ a. fw.memory s' (a + k)) (sym paddr)
            ∙ v.copied k (type ∙ loads) (omega (arith, filesz)) (omega (arith, offset))
            ∙ ap (λ o. disk.file kernel (o + k)) offset,
      )

-- A round of the loop.
visit_headers-suc :
    (elf : ElfFormat) (fw : Firmware) (left kernel e p_header last : ℕ) (s s' : fw.State)
    → ltb p_header last ≡ true
    → visit_header elf fw kernel p_header s ≡ some (tt, s')
    → visit_headers elf fw (suc left) kernel e p_header last s
      ≡ visit_headers elf fw left kernel e (u64 (p_header + e)) last s'
unfolding visit_headers
visit_headers-suc elf fw left kernel e p_header last s s' test one = rw test (rw (one, ◌>>=◌) refl)

-- Earlier headers are at lower addresses.
product_lt : (i n e : ℕ) → i < n → i * e + e ≤ n * e
product_lt i n e l = grind arith

product_suc : (i e : ℕ) → (i + 1) * e ≡ i * e + e
product_suc i e = grind arith

module _ (elf : ElfFormat) (layout : IsLayout elf) (fw : Firmware) (disk : Disk fw) (kernel : ℕ)
    (m : Mem) (p_headers e n : ℕ) (stride : elf.sizeof_phdr ≤ e) (some_size : 0 < e)
    (fits : p_headers + n * e < 2 ^ 64)
    (clear : (i j x : ℕ)
      → i < n
      → j < n
      → p_headers + j * e ≤ x
      → x < p_headers + j * e + elf.sizeof_phdr
      → Off elf m (p_headers + i * e) x) where
  abbrev header : ℕ → ℕ
  header j = p_headers + j * e

  -- What the rounds from header `i` on do.
  record IsLoaded (i : ℕ) (s s' : fw.State) : Type 0 where
    off :
        (x : ℕ)
        → ((j : ℕ) → i ≤ j → j < n → Off elf m (header j) x)
        → fw.memory s' x ≡ fw.memory s x
    copied :
        (t k : ℕ)
        → i ≤ t
        → t < n
        → elf.p_type m (header t) ≡ elf.pt_load
        → k < elf.p_filesz m (header t)
        → elf.p_offset m (header t) + k < disk.file_size kernel
        → ((j : ℕ) → t < j → j < n → Off elf m (header j) (elf.p_paddr m (header t) + k))
        → fw.memory s' (elf.p_paddr m (header t) + k)
          ≡ disk.file kernel (elf.p_offset m (header t) + k)

  visit_headers-IsLoaded :
      (left i : ℕ) (s : fw.State)
      → i + left ≡ n
      → ((j x : ℕ) → j < n → header j ≤ x → x < header j + elf.sizeof_phdr → fw.memory s x ≡ m x)
      → (s' : fw.State) × (visit_headers elf fw left kernel e (header i) (header n) s
          ≡ some (tt, s'))
        × IsLoaded i s s'
  unfolding visit_headers
  visit_headers-IsLoaded zero i s count same =
      (s, refl, record { off = λ x o. refl; copied = λ t k lo hi. absurd (omega arith) })
  visit_headers-IsLoaded (suc left) i s count same =
      let room = product_lt i n e (omega arith) in
      let test : ltb (header i) (header n) ≡ true = ground arith in
      let next : u64 (header i + e) ≡ header (i + 1) = omega (arith, product_suc i e) in
      let (s₁, one, off₁, copied₁) =
        visit_header-from elf layout fw disk kernel m (header i) s
          (λ x l u. same i x (omega arith) l u)
          (λ x l u. clear i i x (omega arith) (omega arith) l u) in
      let (s₂, rest, done) =
        visit_headers-IsLoaded left (i + 1) s₁ (omega arith)
          λ j x below l u. off₁ x (clear i j x (omega arith) below l u) ∙ same j x below l u in
      (
        s₂,
        visit_headers-suc elf fw left kernel e (header i) (header n) s s₁ test one
            ∙ ap (λ a. visit_headers elf fw left kernel e a (header n) s₁) next
            ∙ rest,
        record {
          off = λ x o.
              done.off x (λ j lo hi. o j (omega arith) hi)
              ∙ off₁ x (o i (omega arith) (omega arith));
          copied = λ t k lo hi loads below inside later. elim (Bool-cases (t == i)) [
            | inl here ↦
                let at : t ≡ i = ground arith in
                let copiedₜ : (k : ℕ)
                    → elf.p_type m (header t) ≡ elf.pt_load
                    → k < elf.p_filesz m (header t)
                    → elf.p_offset m (header t) + k < disk.file_size kernel
                    → fw.memory s₁ (elf.p_paddr m (header t) + k)
                      ≡ disk.file kernel (elf.p_offset m (header t) + k) =
                  rw at copied₁ in
                done.off (elf.p_paddr m (header t) + k) (λ j lo hi. later j (omega arith) hi)
                ∙ copiedₜ k loads below inside
            | inr beyond ↦ done.copied t k (ground arith) hi loads below inside later
          ];
        },
      )

module _ (elf : ElfFormat) (layout : IsLayout elf) (fw : Firmware) (disk : Disk fw) (kernel : ℕ)
    (s : fw.State) (p_headers e n : ℕ) (stride : elf.sizeof_phdr ≤ e) (some_size : 0 < e)
    (fits : p_headers + n * e < 2 ^ 64)
    (clear : (i j x : ℕ)
      → i < n
      → j < n
      → p_headers + j * e ≤ x
      → x < p_headers + j * e + elf.sizeof_phdr
      → Off elf (fw.memory s) (p_headers + i * e) x) where
  -- With a firmware that reads files and takes pages as documented, and program headers on
  -- which no segment lies, the loop over the n headers ends, and then each byte of a loaded
  -- segment that the file has, and that no later segment touches, is the file's byte at the
  -- segment's offset.
  pub visit_headers-copied :
      (t k : ℕ)
      → t < n
      → elf.p_type (fw.memory s) (p_headers + t * e) ≡ elf.pt_load
      → k < elf.p_filesz (fw.memory s) (p_headers + t * e)
      → elf.p_offset (fw.memory s) (p_headers + t * e) + k < disk.file_size kernel
      → ((j : ℕ)
          → t < j
          → j < n
          → Off elf
              (fw.memory s)
              (p_headers + j * e)
              (elf.p_paddr (fw.memory s) (p_headers + t * e) + k))
      → (s' : fw.State) × (visit_headers elf fw n kernel e (p_headers + 0 * e) (p_headers + n * e) s
          ≡ some (tt, s'))
        × (fw.memory s' (elf.p_paddr (fw.memory s) (p_headers + t * e) + k)
            ≡ disk.file kernel (elf.p_offset (fw.memory s) (p_headers + t * e) + k))
  visit_headers-copied t k below loads size inside later =
      let (s', done, loaded) =
        visit_headers-IsLoaded elf layout fw disk kernel (fw.memory s) p_headers e n stride
          some_size fits clear n 0 s (omega arith) (λ j x l lo hi. refl) in
      (s', done, loaded.copied t k (omega arith) below loads size inside later)
