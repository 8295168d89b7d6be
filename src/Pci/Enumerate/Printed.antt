-- ===== src/Pci/Enumerate/Printed.antt =====
-- The walk over a bus prints the devices that answer.
use Prim.Native.String.{String}
use mathlib.Core.List.{append_assoc, append-nil}
use eta_os.Base.{
  ℕ, zero, suc, ◌+◌, ◌*◌, ◌/◌, ◌%◌, ◌^◌, ◌≤◌, ◌<◌, ◌≡◌, refl, sym, ◌∙◌, inl, inr, List, [], ◌++◌,
  arith, if◌then◌else◌, Bool-cases, u64, ◌<<<◌,
}
use eta_os.Pci.Enumerate.Listing.{
  AllBeyond, IsWalked, map_header-IsWalked, listed_function, listed_functions, listed_device,
  listed_devices, listed_bus, is_absent_same, print_device_same,
}
use eta_os.Pci.Enumerate.{
  Output, Walk, is_absent, map_header, enumerate_function, functions_from, enumerate_device,
  devices_from,
}
use eta_os.Frames.{Kernel}

module _ (to_hstring_16 to_hstring_8 : ℕ → String) (k : Kernel) (root pages bus_addr : ℕ)
    (aligned : bus_addr % 2 ^ 20 ≡ 0) (fits : bus_addr + 2 ^ 20 ≤ 2 ^ 64)
    (beyond : AllBeyond k bus_addr (2 ^ 20)) where
  -- The walk is somewhere in the bus, and has printed `out`.
  abbrev pub IsAt : Walk → List Output → Type 0
  IsAt w out = IsWalked k root pages bus_addr w.kernel × (w.output ≡ out)

  header_beyond :
      (addr : ℕ) → bus_addr ≤ addr → addr + 2 ^ 12 ≤ bus_addr + 2 ^ 20 → AllBeyond k addr 16
  header_beyond addr lo hi x l u = beyond x (omega arith) (omega arith)

  pub map_header-IsAt :
      (w : Walk) (out : List Output) (addr : ℕ)
      → bus_addr ≤ addr
      → addr + 2 ^ 12 ≤ bus_addr + 2 ^ 20
      → IsAt w out
      → IsAt (map_header (root * 4096) w addr) out
  unfolding map_header
  map_header-IsAt w out addr lo hi (walked, printed) =
      let even = aligned in
      let block : addr / 4096 / 512 ≡ bus_addr / 4096 / 512 = omega arith in
      (map_header-IsWalked k root pages bus_addr w addr block walked, printed)

  enumerate_function-IsAt :
      (w : Walk) (out : List Output) (device_addr f : ℕ)
      → bus_addr ≤ device_addr
      → device_addr + f * 2 ^ 12 + 2 ^ 12 ≤ bus_addr + 2 ^ 20
      → IsAt w out
      → IsAt
          (enumerate_function to_hstring_16 to_hstring_8 (root * 4096) w device_addr f)
          (out ++ listed_function to_hstring_16 to_hstring_8 k.mem (device_addr + f * 2 ^ 12))
  unfolding enumerate_function listed_function
  enumerate_function-IsAt w out device_addr f lo hi at =
      let room = fits in
      let addr = device_addr + f * 2 ^ 12 in
      let here : u64 (device_addr + u64 (f <<< 12)) ≡ addr = omega arith in
      let w' = map_header (root * 4096) w addr in
      let (walked, printed) = map_header-IsAt w out addr (omega arith) hi at in
      let far = header_beyond addr (omega arith) hi in
      let absent = is_absent_same to_hstring_16 to_hstring_8 k w'.kernel walked.framed addr far in
      let shown = print_device_same to_hstring_16 to_hstring_8 k w'.kernel walked.framed addr far in
      rw (here, absent)
        (elim (Bool-cases (is_absent k.mem addr)) [
          | inl none_there ↦ rw none_there (walked, printed ∙ sym (append-nil out))
          | inr there ↦ rw there (walked, rw (shown, printed) refl)
        ])

  functions_from-IsAt :
      (left : ℕ) (w : Walk) (out : List Output) (device_addr f : ℕ)
      → bus_addr ≤ device_addr
      → device_addr + (f + left) * 2 ^ 12 ≤ bus_addr + 2 ^ 20
      → IsAt w out
      → IsAt
          (functions_from to_hstring_16 to_hstring_8 (root * 4096) left w device_addr f)
          (out ++ listed_functions to_hstring_16 to_hstring_8 left k.mem device_addr f)
  unfolding functions_from listed_functions
  functions_from-IsAt zero w out device_addr f lo hi (walked, printed) =
      (walked, printed ∙ sym (append-nil out))
  functions_from-IsAt (suc left) w out device_addr f lo hi at =
      let one = enumerate_function-IsAt w out device_addr f lo (omega arith) at in
      let (walked, printed) =
        functions_from-IsAt left _ _ device_addr (f + 1) lo (omega arith) one in
      (walked, printed ∙ append_assoc out _ _)

  -- Where a header does not answer, neither the walk goes on nor the listing.
  header_choice-IsAt :
      (w walked : Walk) (out inner : List Output) (addr : ℕ)
      → AllBeyond k addr 16
      → IsAt w out
      → IsAt walked (out ++ inner)
      → IsAt
          (if is_absent w.kernel.mem addr then w else walked)
          (out ++ (if is_absent k.mem addr then [] else inner))
  header_choice-IsAt w walked out inner addr far (here, printed) further =
      let absent = is_absent_same to_hstring_16 to_hstring_8 k w.kernel here.framed addr far in
      rw absent (elim (Bool-cases (is_absent k.mem addr)) [
        | inl none_there ↦ rw none_there (here, printed ∙ sym (append-nil out))
        | inr there ↦ rw there further
      ])

  enumerate_device-IsAt :
      (w : Walk) (out : List Output) (d : ℕ)
      → d < 32
      → IsAt w out
      → IsAt
          (enumerate_device to_hstring_16 to_hstring_8 (root * 4096) w bus_addr d)
          (out ++ listed_device to_hstring_16 to_hstring_8 k.mem (bus_addr + d * 2 ^ 15))
  unfolding enumerate_device listed_device
  enumerate_device-IsAt w out d below at =
      let room = fits in
      let addr = bus_addr + d * 2 ^ 15 in
      let here : u64 (bus_addr + u64 (d <<< 15)) ≡ addr = omega arith in
      let w' = map_header (root * 4096) w addr in
      let mapped = map_header-IsAt w out addr (omega arith) (omega arith) at in
      let far = header_beyond addr (omega arith) (omega arith) in
      let walked = functions_from-IsAt 8 w' out addr 0 (omega arith) (omega arith) mapped in
      rw here (header_choice-IsAt w' _ out _ addr far mapped walked)

  devices_from-IsAt :
      (left : ℕ) (w : Walk) (out : List Output) (d : ℕ)
      → d + left ≤ 32
      → IsAt w out
      → IsAt
          (devices_from to_hstring_16 to_hstring_8 (root * 4096) left w bus_addr d)
          (out ++ listed_devices to_hstring_16 to_hstring_8 left k.mem bus_addr d)
  unfolding devices_from listed_devices
  devices_from-IsAt zero w out d hi (walked, printed) = (walked, printed ∙ sym (append-nil out))
  devices_from-IsAt (suc left) w out d hi at =
      let one = enumerate_device-IsAt w out d (omega arith) at in
      let (walked, printed) = devices_from-IsAt left _ _ (d + 1) (omega arith) one in
      (walked, printed ∙ append_assoc out _ _)

  -- Behind the first header of the bus.
  pub bus_mapped-IsAt :
      (w : Walk) (out : List Output)
      → IsAt w out
      → IsAt
          (if is_absent w.kernel.mem bus_addr
            then w
            else devices_from to_hstring_16 to_hstring_8 (root * 4096) 32 w bus_addr 0)
          (out ++ listed_bus to_hstring_16 to_hstring_8 k.mem bus_addr)
  unfolding listed_bus
  bus_mapped-IsAt w out at =
      let all = devices_from-IsAt 32 w out 0 (omega arith) at in
      header_choice-IsAt w _ out _ bus_addr (header_beyond bus_addr (omega arith) (omega arith)) at
        all
