-- ===== src/Pci/Enumerate/Buses.antt =====
-- The walk over the buses of one entry of the MCFG table.
use Prim.Native.String.{String}
use mathlib.Core.List.{append_assoc, append-nil}
use eta_os.Base.{
  ℕ, zero, suc, ◌+◌, ◌-◌, ◌*◌, ◌%◌, ◌^◌, ◌≤◌, ◌<◌, ◌≡◌, refl, sym, ◌∙◌, inl, inr, List, ◌++◌, arith,
  ltb, Bool-cases, u64, ◌<<<◌,
}
use eta_os.Paging.Tables.MapMem.{map_mem-IsMapped}
use eta_os.Paging.Tables.Ready.{IsMapped-Ready, IsMapped-spare_pages, IsMapped-IsFramed}
use eta_os.Memory.{load64}
use eta_os.Paging.Tables.Translate.{IsMapped-IsPaged}
use eta_os.Paging.{map_mem}
use eta_os.Paging.Tables.{spare_pages, IsPaged}
use eta_os.Pci.Enumerate.{Output, Walk, map_header, enumerate_bus, buses_from}
use eta_os.Frames.{Kernel}
use eta_os.Pci.Enumerate.Listing.{AllBeyond, IsWalked, listed_bus, listed_buses}
use eta_os.Paging.Tables.Frame.{IsFramed, IsFramed-refl, IsFramed-trans}
use eta_os.Memory.Words.{load64_same}
use eta_os.Pci.Enumerate.Printed.{bus_mapped-IsAt}

-- The walk, begun in `k`, has got to `now`, after at most `pages` pages for tables.
record IsBetween (k : Kernel) (root pages : ℕ) (now : Kernel) : Type 0 where
  height : ℕ → ℕ
  parent : ℕ → ℕ
  paged : IsPaged height parent now
  top : height root ≡ 4
  framed : IsFramed k now
  spare : spare_pages k ≤ spare_pages now + pages

-- The first header of a bus may take three pages.
map_header-first :
    (k : Kernel) (root pages : ℕ) (w : Walk) (addr : ℕ)
    → pages + 3 ≤ spare_pages k
    → IsBetween k root pages w.kernel
    → IsWalked k root (pages + 3) addr (map_header (root * 4096) w addr).kernel
unfolding map_header
map_header-first k root pages w addr enough before =
    let k' = map_mem w.kernel (root * 4096) addr addr in
    let left = before.spare in
    let done =
      map_mem-IsMapped before.height before.parent w.kernel before.paged root addr addr before.top
        (omega arith) in
    let few = IsMapped-spare_pages w.kernel root addr addr 3 k' done in
    record {
      height = done.height;
      parent = done.parent;
      paged = IsMapped-IsPaged w.kernel root addr addr 3 k' done;
      top = done.top;
      framed =
          IsFramed-trans k w.kernel k' before.framed
            (IsMapped-IsFramed w.kernel root addr addr 3 k' done);
      spare = omega arith;
      tables = IsMapped-Ready w.kernel root addr addr 3 k' done;
    }

module _ (to_hstring_16 to_hstring_8 : ℕ → String) (k : Kernel) (root base_addr : ℕ)
    (aligned : base_addr % 2 ^ 20 ≡ 0) (fits : base_addr + 2 ^ 28 ≤ 2 ^ 64)
    (beyond : AllBeyond k base_addr (2 ^ 28)) where
  enumerate_bus-IsBetween :
      (pages : ℕ) (w : Walk) (out : List Output) (bus : ℕ)
      → bus < 256
      → pages + 3 ≤ spare_pages k
      → IsBetween k root pages w.kernel
      → w.output ≡ out
      → let w' = enumerate_bus to_hstring_16 to_hstring_8 (root * 4096) w base_addr bus in
        IsBetween k root (pages + 3) w'.kernel
        × (w'.output
            ≡ out ++ listed_bus to_hstring_16 to_hstring_8 k.mem (base_addr + bus * 2 ^ 20))
  unfolding enumerate_bus
  enumerate_bus-IsBetween pages w out bus below enough before printed =
      let room = fits in
      let even = aligned in
      let addr = base_addr + bus * 2 ^ 20 in
      let here : u64 (base_addr + u64 (bus <<< 20)) ≡ addr = omega arith in
      let w' = map_header (root * 4096) w addr in
      let start = map_header-first k root pages w addr enough before in
      let (walked, listed) =
        bus_mapped-IsAt to_hstring_16 to_hstring_8 k root (pages + 3) addr (omega arith)
          (omega arith) (λ x l u. beyond x (omega arith) (omega arith)) w' out
          (start, unfold map_header in printed) in
      rw here (
        record {
          height = walked.height;
          parent = walked.parent;
          paged = walked.paged;
          top = walked.top;
          framed = walked.framed;
          spare = walked.spare;
        },
        listed,
      )

  buses_from-IsBetween :
      (left : ℕ) (config pages : ℕ) (w : Walk) (out : List Output) (bus : ℕ)
      → AllBeyond k config 16
      → load64 k.mem config ≡ base_addr
      → k.mem (config + 11) < 256
      → k.mem (config + 11) ≤ bus + left
      → pages + 3 * (k.mem (config + 11) - bus) ≤ spare_pages k
      → IsBetween k root pages w.kernel
      → w.output ≡ out
      → (buses_from to_hstring_16 to_hstring_8 (root * 4096) left w config bus).output
        ≡ out
          ++ listed_buses to_hstring_16 to_hstring_8 (k.mem (config + 11) - bus) k.mem base_addr bus
  unfolding buses_from listed_buses
  buses_from-IsBetween zero config pages w out bus far base byte rounds enough before printed =
      let none_left : k.mem (config + 11) - bus ≡ 0 = omega arith in
      rw none_left (printed ∙ sym (append-nil out))
  buses_from-IsBetween (suc left) config pages w out bus far base byte rounds enough before
        printed =
      let end_same : w.kernel.mem (config + 11) ≡ k.mem (config + 11) =
        before.framed.beyond (config + 11) (far (config + 11) (omega arith) (omega arith)) in
      let base_same : load64 w.kernel.mem config ≡ base_addr =
        load64_same {m = k.mem} {m' = w.kernel.mem} config
          (λ x l u. before.framed.beyond x (far x l (omega arith)))
        ∙ base in
      rw (end_same, base_same)
        (elim (Bool-cases (ltb bus (k.mem (config + 11)))) [
          | inl more ↦
              let (after, listed) =
                enumerate_bus-IsBetween pages w out bus (ground arith) (ground arith) before
                  printed in
              let rest =
                buses_from-IsBetween left config (pages + 3) _ _ (bus + 1) far base byte
                  (omega arith) (ground arith) after listed in
              let n : k.mem (config + 11) - bus ≡ suc (k.mem (config + 11) - (bus + 1)) =
                ground arith in
              rw (more, n) (rest ∙ append_assoc out _ _)
          | inr over ↦
              let none_left : k.mem (config + 11) - bus ≡ 0 = ground arith in
              rw (over, none_left) (printed ∙ sym (append-nil out))
        ])

  -- Where the tables satisfy the invariant, the allocator has three pages for each bus, and the
  -- entry and its buses, with a base that is a multiple of 1 MiB, lie behind the pages of the
  -- bitmap, the walk over an entry of the MCFG table adds to the output the listing, in order,
  -- of what answers in the memory before the walk, for the buses from start_bus on and without
  -- end_bus; the headers that it maps change none of what it reads.
  pub buses_from-listed_buses :
      (height parent : ℕ → ℕ) (config : ℕ) (output : List Output)
      → IsPaged height parent k
      → height root ≡ 4
      → AllBeyond k config 16
      → load64 k.mem config ≡ base_addr
      → 3 * (k.mem (config + 11) - k.mem (config + 10)) ≤ spare_pages k
      → (buses_from to_hstring_16 to_hstring_8
          (root * 4096)
          255
          (record { kernel = k; output = output })
          config
          (k.mem (config + 10))).output
        ≡ output
          ++ listed_buses to_hstring_16 to_hstring_8
              (k.mem (config + 11) - k.mem (config + 10))
              k.mem
              base_addr
              (k.mem (config + 10))
  buses_from-listed_buses height parent config output paged top far base enough =
      let start = k.mem (config + 10) in
      let byte : k.mem (config + 11) < 256 = paged.bytes (config + 11) in
      buses_from-IsBetween 255 config 0 (record { kernel = k; output = output }) output start far
        base byte (omega arith) (omega arith)
        (record {
          height = height;
          parent = parent;
          paged = paged;
          top = top;
          framed = IsFramed-refl k;
          spare = omega arith;
        })
        refl
