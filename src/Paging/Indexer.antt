-- ===== src/Paging/Indexer.antt =====
-- The four indices of a virtual address.
use eta_os.Base.{ℕ, ◌+◌, ◌*◌, ◌/◌, ◌%◌, ◌^◌, ◌<◌, bit_and, ◌≡◌, arith}
use eta_os.Bits.Digit.{digit-lt, digit-zero, digit-and, digit-not, digit_ext, bit_and-lt_right}
use eta_os.Paging.{page_map_indexer}
use eta_os.Bits.Shift.{digit-mod}

-- `x & 0x1ff`
nine_bits : (x : ℕ) → bit_and x 0x1ff ≡ x % 512
nine_bits x = digit_ext 9 _ _ (bit_and-lt_right 9 x 0x1ff (omega arith)) (omega arith) λ i l.
    ground (
      arith,
      digit-and x 0x1ff i,
      digit-not 9 0 i (omega arith) l,
      digit-zero i,
      digit-lt x i,
      digit-mod x 9 i,
    )

pub page_map_indexer_lem :
    (virt : ℕ)
    → let indexer = page_map_indexer virt in
      (indexer.pdp_i ≡ virt / 4096 / 134217728 % 512)
      × (indexer.pd_i ≡ virt / 4096 / 262144 % 512)
      × (indexer.pt_i ≡ virt / 4096 / 512 % 512)
      × (indexer.p_i ≡ virt / 4096 % 512)
unfolding page_map_indexer
page_map_indexer_lem virt = omega (
  arith,
  nine_bits (virt / 4096),
  nine_bits (virt / 4096 / 512),
  nine_bits (virt / 4096 / 512 / 512),
  nine_bits (virt / 4096 / 512 / 512 / 512),
)

-- The four indices of PageMapIndexer are below 512, and together they are the 36 bits of the
-- address that name its page.
pub page_map_indexer-page :
    (virt : ℕ)
    → let indexer = page_map_indexer virt in
      (indexer.pdp_i < 512)
      × (indexer.pd_i < 512)
      × (indexer.pt_i < 512)
      × (indexer.p_i < 512)
      × (((indexer.pdp_i * 512 + indexer.pd_i) * 512 + indexer.pt_i) * 512 + indexer.p_i
          ≡ virt / 4096 % 2 ^ 36)
page_map_indexer-page virt = omega (arith, page_map_indexer_lem virt)
