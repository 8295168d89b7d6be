-- ===== src/Heap/Pages/Backed.antt =====
-- What is behind the pages of the heap.
use eta_os.Base.{
  ℕ, zero, suc, ◌+◌, ◌*◌, ◌/◌, ◌%◌, ◌^◌, ◌≤◌, ◌<◌, ◌≡◌, refl, sym, ap, ◌∙◌, ◌≢◌, ◌⊎◌, inl, inr,
  true, false, some, arith, Bool-cases, u64,
}
use eta_os.Frames.{Kernel, page_locked, request_page}
use eta_os.Paging.{map_mem}
use eta_os.Paging.Tables.Frame.{KeepsPlain, KeepsPlain-trans}
use eta_os.Paging.Tables.Ready.{
  IsMapped-spare_pages, IsMapped-IsFramed, IsMapped-KeepsPlain, IsMapped-locks,
}
use eta_os.Paging.Tables.Translate.{
  translate_page, IsMapped-translate, IsMapped-translate_other, IsMapped-IsPaged,
}
use eta_os.Paging.Tables.{translate, spare_pages, PageOutside, IsPaged}
use eta_os.Paging.Tables.MapMem.{map_mem-IsMapped}
use eta_os.Paging.Tables.Given.{request_page-IsGiven}
use eta_os.Heap.Pages.{map_new_pages}

-- A page before others.
abbrev first_page : ℕ → (ℕ → ℕ) → ℕ → ℕ
first_page n pages zero = n
first_page n pages (suc i) = pages i

-- Virtual page `v + i` leads to page `pages i`: pages that were free, each behind one virtual page,
-- and none of them a page table; other translations are as before.
pub record IsBacked (height : ℕ → ℕ) (k : Kernel) (root v left : ℕ) (k' : Kernel) : Type 0 where
  pub heights : ℕ → ℕ
  pub parents : ℕ → ℕ
  pub paged : IsPaged heights parents k'
  pub top : heights root ≡ 4
  pub pages : ℕ → ℕ
  pub backs :
      (i a : ℕ) → i < left → a / 4096 ≡ v + i → translate k'.mem (root * 4096) a ≡ some (pages i)
  pub others :
      (a : ℕ)
      → a < 2 ^ 48
      → (a / 4096 < v) ⊎ (v + left ≤ a / 4096)
      → translate k'.mem (root * 4096) a ≡ translate k.mem (root * 4096) a
  pub unused : (i : ℕ) → i < left → page_locked k (pages i) ≡ false
  pub distinct : (i j : ℕ) → i < left → j < left → pages i ≡ pages j → i ≡ j
  pub no_tables : (i : ℕ) → i < left → heights (pages i) ≡ 0
  pub plain : (j : ℕ) → page_locked k j ≡ true → height j ≡ 0 → heights j ≡ 0
  pub untouched : KeepsPlain height k k'
  pub taken : (i : ℕ) → i < left → page_locked k' (pages i) ≡ true
  pub clear : (i : ℕ) → i < left → PageOutside k (pages i)
  pub locks : (j : ℕ) → page_locked k j ≡ true → page_locked k' j ≡ true
  pub placed : k'.page_bitmap ≡ k.page_bitmap
  pub spare : spare_pages k ≤ spare_pages k' + 4 * left

-- One round: a page is given out and mapped.
record IsRound (height : ℕ → ℕ) (k : Kernel) (root v : ℕ) (k' : Kernel) : Type 0 where
  heights : ℕ → ℕ
  parents : ℕ → ℕ
  paged : IsPaged heights parents k'
  top : heights root ≡ 4
  page : ℕ
  backs : translate k'.mem (root * 4096) (v * 4096) ≡ some page
  others :
      (a : ℕ)
      → a / 4096 % 2 ^ 36 ≢ v % 2 ^ 36
      → translate k'.mem (root * 4096) a ≡ translate k.mem (root * 4096) a
  unused : page_locked k page ≡ false
  clear : PageOutside k page
  taken : page_locked k' page ≡ true
  no_table : heights page ≡ 0
  locks : (j : ℕ) → page_locked k j ≡ true → page_locked k' j ≡ true
  plain : (j : ℕ) → page_locked k j ≡ true → height j ≡ 0 → heights j ≡ 0
  spare : spare_pages k ≤ spare_pages k' + 4
  placed : k'.page_bitmap ≡ k.page_bitmap
  untouched : KeepsPlain height k k'

map_mem-IsRound :
    (height parent : ℕ → ℕ) (k : Kernel) (root v : ℕ)
    → IsPaged height parent k
    → height root ≡ 4
    → 4 ≤ spare_pages k
    → IsRound height k root v
        (map_mem (request_page k).0 (root * 4096) (v * 4096) (request_page k).1)
map_mem-IsRound height parent k root v paged top enough =
    let given = request_page-IsGiven height parent k paged (omega arith) in
    let k₁ = (request_page k).0 in
    let phys = (request_page k).1 in
    let left = given.spare in
    let k₂ = map_mem k₁ (root * 4096) (v * 4096) phys in
    let done =
      map_mem-IsMapped height parent k₁ given.paged root (v * 4096) phys top (omega arith) in
    let few = IsMapped-spare_pages k₁ root (v * 4096) phys 3 k₂ done in
    let fits = given.fits in
    let page : phys / 4096 % 2 ^ 40 ≡ given.page = omega (arith, given.address) in
    let virt : v * 4096 / 4096 ≡ v = omega arith in
    let at : root * 4096 / 4096 ≡ root = omega arith in
    record {
      heights = done.height;
      parents = done.parent;
      paged = IsMapped-IsPaged k₁ root (v * 4096) phys 3 k₂ done;
      top = done.top;
      page = given.page;
      backs = IsMapped-translate k₁ root (v * 4096) phys 3 k₂ done ∙ ap some page;
      others = λ a ne.
          IsMapped-translate_other k₁ root (v * 4096) phys 3 k₂ done a (rw virt ne)
          ∙ unfold translate in rw at (given.walks 3 root (a / 4096) top);
      unused = given.unused;
      clear = given.clear;
      taken = IsMapped-locks k₁ root (v * 4096) phys 3 k₂ done given.page given.taken;
      no_table = done.plain given.page given.taken given.plain;
      locks = λ j h. IsMapped-locks k₁ root (v * 4096) phys 3 k₂ done j (given.locks j h);
      plain = λ j h low. done.plain j (given.locks j h) low;
      spare = omega arith;
      placed = (IsMapped-IsFramed k₁ root (v * 4096) phys 3 k₂ done).bitmap ∙ given.placed;
      untouched =
          KeepsPlain-trans height height k k₁ k₂ given.placed given.locks (λ j h low. low)
            given.untouched (IsMapped-KeepsPlain k₁ root (v * 4096) phys 3 k₂ done);
    }

-- A round before others.
module _ (height : ℕ → ℕ) (k : Kernel) (root v left : ℕ) (k₁ k' : Kernel)
    (fits : v + suc left ≤ 2 ^ 36) (round : IsRound height k root v k₁)
    (rest : IsBacked round.heights k₁ root (suc v) left k') where
  abbrev all_pages : ℕ → ℕ
  all_pages = first_page round.page rest.pages

  backs_all :
      (i a : ℕ)
      → i < suc left
      → a / 4096 ≡ v + i
      → translate k'.mem (root * 4096) a ≡ some (all_pages i)
  backs_all zero a l at =
      rest.others a (omega arith) (omega arith)
      ∙ translate_page k₁.mem (root * 4096) a (v * 4096) (omega arith)
      ∙ round.backs
  backs_all (suc i) a l at = rest.backs i a (omega arith) (omega arith)

  unused_all : (i : ℕ) → i < suc left → page_locked k (all_pages i) ≡ false
  unused_all zero l = round.unused
  unused_all (suc i) l = elim (Bool-cases (page_locked k (rest.pages i))) [
    | inl was ↦ absurd (ground (arith, rest.unused i (omega arith), round.locks (rest.pages i) was))
    | inr free ↦ free
  ]

  first_differs : (i : ℕ) → i < left → round.page ≢ rest.pages i
  first_differs i l e = ground (arith, round.taken, rest.unused i l, ap (page_locked k₁) e)

  distinct_all : (i j : ℕ) → i < suc left → j < suc left → all_pages i ≡ all_pages j → i ≡ j
  distinct_all zero zero l l' e = refl
  distinct_all zero (suc j) l l' e = absurd (first_differs j (omega arith) e)
  distinct_all (suc i) zero l l' e = absurd (first_differs i (omega arith) (sym e))
  distinct_all (suc i) (suc j) l l' e = ap suc (rest.distinct i j (omega arith) (omega arith) e)

  no_tables_all : (i : ℕ) → i < suc left → rest.heights (all_pages i) ≡ 0
  no_tables_all zero l = rest.plain round.page round.taken round.no_table
  no_tables_all (suc i) l = rest.no_tables i (omega arith)

  taken_all : (i : ℕ) → i < suc left → page_locked k' (all_pages i) ≡ true
  taken_all zero l = rest.locks round.page round.taken
  taken_all (suc i) l = rest.taken i (omega arith)

  clear_all : (i : ℕ) → i < suc left → PageOutside k (all_pages i)
  clear_all zero l = round.clear
  clear_all (suc i) l = rw round.placed at (rest.clear i (omega arith))

  IsBacked-suc : IsBacked height k root v (suc left) k'
  IsBacked-suc = record {
    heights = rest.heights;
    parents = rest.parents;
    paged = rest.paged;
    top = rest.top;
    pages = all_pages;
    backs = backs_all;
    others = λ a low out.
        rest.others a low
          (elim out [ inl under ↦ inl (omega arith) | inr over ↦ inr (omega arith) ])
        ∙ round.others a (elim out [ inl under ↦ omega arith | inr over ↦ omega arith ]);
    unused = unused_all;
    distinct = distinct_all;
    no_tables = no_tables_all;
    plain = λ j was low. rest.plain j (round.locks j was) (round.plain j was low);
    untouched =
        KeepsPlain-trans height round.heights k k₁ k' round.placed round.locks round.plain
          round.untouched rest.untouched;
    taken = taken_all;
    clear = clear_all;
    locks = λ j h. rest.locks j (round.locks j h);
    placed = rest.placed ∙ round.placed;
    spare = omega (arith, round.spare, rest.spare);
  }

-- Where the tables satisfy the invariant, the allocator has four pages for each page of the
-- heap, and the heap lies in the 48 bits of an address, the loop of init_heap leaves each page
-- of the heap on its own physical page, which was free, is locked afterwards and is no page
-- table nor the bitmap's, changes the translation of no other page and no byte of a locked page
-- that is no table nor the bitmap's, and keeps the invariant.
pub map_new_pages-IsBacked :
    (left : ℕ) (height parent : ℕ → ℕ) (k : Kernel) (root v : ℕ)
    → IsPaged height parent k
    → height root ≡ 4
    → v + left ≤ 2 ^ 36
    → 4 * left ≤ spare_pages k
    → IsBacked height k root v left (map_new_pages left k (root * 4096) (v * 4096))
unfolding map_new_pages
map_new_pages-IsBacked zero height parent k root v paged top fits enough = record {
  heights = height;
  parents = parent;
  paged = paged;
  top = top;
  pages = λ i. 0;
  backs = λ i a l at. absurd (omega arith);
  others = λ a low out. refl;
  unused = λ i l. absurd (omega arith);
  distinct = λ i j l l' e. absurd (omega arith);
  no_tables = λ i l. absurd (omega arith);
  plain = λ j was low. low;
  untouched = λ x held low out. refl;
  taken = λ i l. absurd (omega arith);
  clear = λ i l. absurd (omega arith);
  locks = λ j h. h;
  placed = refl;
  spare = omega arith;
}
map_new_pages-IsBacked (suc left) height parent k root v paged top fits enough =
    let k₁ = map_mem (request_page k).0 (root * 4096) (v * 4096) (request_page k).1 in
    let round = map_mem-IsRound height parent k root v paged top (omega arith) in
    let few = round.spare in
    let rest =
      map_new_pages-IsBacked left round.heights round.parents k₁ root (suc v) round.paged round.top
        (omega arith) (omega arith) in
    let next : u64 (v * 4096 + 4096) ≡ suc v * 4096 = omega arith in
    rw next (
      IsBacked-suc height k root v left k₁ (map_new_pages left k₁ (root * 4096) (suc v * 4096)) fits
        round rest)
