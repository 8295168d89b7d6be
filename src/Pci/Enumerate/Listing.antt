-- ===== src/Pci/Enumerate/Listing.antt =====
-- What the walk over the PCI buses prints, from the devices' memory before the walk.
use Prim.Native.String.{String}
use eta_os.Base.{
  ℕ, zero, suc, ◌+◌, ◌*◌, ◌/◌, ◌^◌, ◌≤◌, ◌<◌, ◌≡◌, refl, ◌∙◌, List, [], ◌++◌, arith, if◌then◌else◌,
}
use eta_os.Pci.Enumerate.{Output, Walk, is_absent, map_header, print_device}
use eta_os.Paging.Tables.Ready.{
  Ready, reach-block, Ready-IsMapped, IsMapped-Ready, IsMapped-spare_pages, IsMapped-IsFramed,
}
use eta_os.Paging.Tables.Frame.{Beyond, IsFramed, IsFramed-trans}
use eta_os.Paging.Tables.Translate.{IsMapped-IsPaged}
use eta_os.Memory.{Mem}
use eta_os.Paging.Tables.{spare_pages, IsPaged}
use eta_os.Paging.{map_mem}
use eta_os.Frames.{Kernel}
use eta_os.Memory.Words.{load16_same}

-- Everything from `a` on, `n` bytes, is beyond.
abbrev pub AllBeyond : Kernel → ℕ → ℕ → Type 0
AllBeyond k a n = (x : ℕ) → a ≤ x → x < a + n → Beyond k.page_bitmap x

-- The walk, begun in `k`, has got to `now`: the tables are sound, at most `pages` pages were taken,
-- and the last table for address `near` is there.
pub record IsWalked (k : Kernel) (root pages near : ℕ) (now : Kernel) : Type 0 where
  pub height : ℕ → ℕ
  pub parent : ℕ → ℕ
  pub paged : IsPaged height parent now
  pub top : height root ≡ 4
  pub framed : IsFramed k now
  pub spare : spare_pages k ≤ spare_pages now + pages
  pub tables : Ready now root (near / 4096)

-- A header whose tables are there takes no page.
pub map_header-IsWalked :
    (k : Kernel) (root pages near : ℕ) (w : Walk) (addr : ℕ)
    → addr / 4096 / 512 ≡ near / 4096 / 512
    → IsWalked k root pages near w.kernel
    → IsWalked k root pages near (map_header (root * 4096) w addr).kernel
unfolding map_header
map_header-IsWalked k root pages near w addr same walked =
    let k' = map_mem w.kernel (root * 4096) addr addr in
    let (t, way) = walked.tables in
    let ready : Ready w.kernel root (addr / 4096) =
      (t, reach-block w.kernel root (addr / 4096) (near / 4096) same ∙ way) in
    let done =
      Ready-IsMapped walked.height walked.parent w.kernel walked.paged root addr addr walked.top
        ready in
    let (t', way') = IsMapped-Ready w.kernel root addr addr 0 k' done in
    let few = IsMapped-spare_pages w.kernel root addr addr 0 k' done in
    let before = walked.spare in
    record {
      height = done.height;
      parent = done.parent;
      paged = IsMapped-IsPaged w.kernel root addr addr 0 k' done;
      top = done.top;
      framed =
          IsFramed-trans k w.kernel k' walked.framed
            (IsMapped-IsFramed w.kernel root addr addr 0 k' done);
      spare = omega arith;
      tables = (t', reach-block k' root (near / 4096) (addr / 4096) (omega arith) ∙ way');
    }

module _ (to_hstring_16 to_hstring_8 : ℕ → String) where
  -- The devices that answer, in the order of the walk.
  unfoldable pub listed_function : Mem → ℕ → List Output
  listed_function m addr =
      if is_absent m addr then [] else print_device to_hstring_16 to_hstring_8 m addr

  unfoldable pub listed_functions : ℕ → Mem → ℕ → ℕ → List Output
  unfolding listed_function
  listed_functions zero m device_addr f = []
  listed_functions (suc left) m device_addr f =
      listed_function m (device_addr + f * 2 ^ 12) ++ listed_functions left m device_addr (f + 1)

  unfoldable pub listed_device : Mem → ℕ → List Output
  listed_device m addr = if is_absent m addr then [] else listed_functions 8 m addr 0

  unfoldable pub listed_devices : ℕ → Mem → ℕ → ℕ → List Output
  unfolding listed_device
  listed_devices zero m bus_addr d = []
  listed_devices (suc left) m bus_addr d =
      listed_device m (bus_addr + d * 2 ^ 15) ++ listed_devices left m bus_addr (d + 1)

  unfoldable pub listed_bus : Mem → ℕ → List Output
  listed_bus m addr = if is_absent m addr then [] else listed_devices 32 m addr 0

  -- `n` buses from `bus` on.
  unfoldable pub listed_buses : ℕ → Mem → ℕ → ℕ → List Output
  listed_buses zero m base_addr bus = []
  listed_buses (suc n) m base_addr bus =
      listed_bus m (base_addr + bus * 2 ^ 20) ++ listed_buses n m base_addr (bus + 1)

  -- What is read of a header is what was there before the walk.
  module _ (k k' : Kernel) (framed : IsFramed k k') (addr : ℕ) (beyond : AllBeyond k addr 16) where
    pub is_absent_same : is_absent k'.mem addr ≡ is_absent k.mem addr
    unfolding is_absent
    is_absent_same =
        let id =
          load16_same {m = k.mem} {m' = k'.mem} (addr + 2)
            λ x l u. framed.beyond x (beyond x (omega arith) (omega arith)) in
        rw id refl

    pub print_device_same :
        print_device to_hstring_16 to_hstring_8 k'.mem addr
        ≡ print_device to_hstring_16 to_hstring_8 k.mem addr
    unfolding print_device
    print_device_same =
        let same : (x : ℕ) → addr ≤ x → x < addr + 16 → k'.mem x ≡ k.mem x =
          λ x l u. framed.beyond x (beyond x l u) in
        let vendor = load16_same {m = k.mem} {m' = k'.mem} addr λ x l u. same x l (omega arith) in
        let device =
          load16_same {m = k.mem} {m' = k'.mem} (addr + 2)
            λ x l u. same x (omega arith) (omega arith) in
        rw
          (
            vendor,
            device,
            same (addr + 10) (omega arith) (omega arith),
            same (addr + 11) (omega arith) (omega arith),
          )
          refl
