-- ===== src/Paging/Tables/Frame.antt =====
-- What `map_mem` leaves alone: the memory behind the pages that the bitmap is about.
use eta_os.Base.{◌/◌, ℕ, ◌+◌, ◌*◌, ◌^◌, ◌≤◌, ◌<◌, ◌≡◌, refl, ◌∙◌, true, arith}
use eta_os.Bitmap.{Bitmap, get}
use eta_os.Frames.{Kernel, page_locked}
use eta_os.Frames.Boot.Writes.{Outside}

-- An address that is behind those pages, and not in the bitmap.
abbrev pub Beyond : Bitmap → ℕ → Type 0
Beyond b x = Outside b x × ((b.size * 8 + 1) * 4096 ≤ x)

-- The bitmap has kept its place, and memory beyond is as it was.
pub record IsFramed (k k' : Kernel) : Type 0 where
  pub bitmap : k'.page_bitmap ≡ k.page_bitmap
  pub beyond : (x : ℕ) → Beyond k.page_bitmap x → k'.mem x ≡ k.mem x

pub IsFramed-refl : (k : Kernel) → IsFramed k k
IsFramed-refl k = record { bitmap = refl; beyond = λ x h. refl }

pub IsFramed-trans : (k k' k'' : Kernel) → IsFramed k k' → IsFramed k' k'' → IsFramed k k''
IsFramed-trans k k' k'' f g = record {
  bitmap = g.bitmap ∙ f.bitmap;
  beyond = λ x h. g.beyond x (rw f.bitmap h) ∙ f.beyond x h;
}

-- The bytes of locked pages that are neither tables nor the bitmap's are as they were.
abbrev pub KeepsPlain : (ℕ → ℕ) → Kernel → Kernel → Type 0
KeepsPlain height k k' =
    (x : ℕ)
    → page_locked k (x / 4096) ≡ true
    → height (x / 4096) ≡ 0
    → Outside k.page_bitmap x
    → k'.mem x ≡ k.mem x

pub KeepsPlain-trans :
    (height height' : ℕ → ℕ) (k k' k'' : Kernel)
    → k'.page_bitmap ≡ k.page_bitmap
    → ((j : ℕ) → page_locked k j ≡ true → page_locked k' j ≡ true)
    → ((j : ℕ) → page_locked k j ≡ true → height j ≡ 0 → height' j ≡ 0)
    → KeepsPlain height k k'
    → KeepsPlain height' k' k''
    → KeepsPlain height k k''
KeepsPlain-trans height height' k k' k'' same locks plain first second x held low out =
    second x (locks (x / 4096) held) (plain (x / 4096) held low) (rw same out)
    ∙ first x held low out

-- A page that is locked has a bit.
pub page_locked-le :
    (k : Kernel) (p : ℕ)
    → k.page_bitmap.size < 2 ^ 40
    → page_locked k p ≡ true
    → p ≤ k.page_bitmap.size * 8
unfolding get
page_locked-le k p small h = ground arith
