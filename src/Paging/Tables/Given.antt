-- ===== src/Paging/Tables/Given.antt =====
-- A page that `request_page` gives out for something else leaves the page tables as they are.
use eta_os.Base.{
  ℕ, zero, suc, ◌+◌, ◌*◌, ◌^◌, ◌<◌, ◌≡◌, ◌≢◌, inl, inr, true, false, ◌||◌, arith, ◌==◌, Bool-cases,
}
use eta_os.Frames.{Kernel, page_locked, request_page}
use eta_os.Paging.Tables.Frame.{KeepsPlain}
use eta_os.Paging.Tables.Request.{
  request_page-Keeps, request_page-page_bitmap, request_page-IsBytes, request_page-found,
  request_page-spare_pages,
}
use eta_os.Paging.Tables.Next.{index_at-lt}
use eta_os.Paging.Tables.{entry, is_present, index_at, walk, spare_pages, PageOutside, IsPaged}
use eta_os.Frames.Scan.{request_page-IsScanned}
use eta_os.Paging.{get_address, entry_at}
use eta_os.Memory.Words.{load64_same}

-- The page, and what the new state is to the tables.
pub record IsGiven (height parent : ℕ → ℕ) (k : Kernel) (given : Kernel × ℕ) : Type 0 where
  pub page : ℕ
  pub address : given.1 ≡ page * 4096
  pub fits : page < 2 ^ 40
  pub unused : page_locked k page ≡ false
  pub clear : PageOutside k page
  pub taken : page_locked given.0 page ≡ true
  pub plain : height page ≡ 0
  pub locks : (j : ℕ) → page_locked k j ≡ true → page_locked given.0 j ≡ true
  pub paged : IsPaged height parent given.0
  pub placed : given.0.page_bitmap ≡ k.page_bitmap
  pub untouched : KeepsPlain height k given.0
  pub walks : (l r v : ℕ) → height r ≡ suc l → walk given.0.mem l r v ≡ walk k.mem l r v
  pub spare : spare_pages k ≡ spare_pages given.0 + 1

module _ (height parent : ℕ → ℕ) (k : Kernel) (paged : IsPaged height parent k) where
  entry-request_page :
      (r j : ℕ) → height r ≢ 0 → j < 512 → entry (request_page k).0.mem r j ≡ entry k.mem r j
  entry-request_page r j t j_fits =
      let small = paged.size_fits in
      load64_same {m = k.mem} {m' = (request_page k).0.mem} (entry_at (r * 4096) j) λ x lo hi.
        (request_page-Keeps k x (omega arith) (paged.apart r t x (omega arith) (omega arith))).1

  walk-request_page :
      (l r v : ℕ) → height r ≡ suc l → walk (request_page k).0.mem l r v ≡ walk k.mem l r v
  unfolding walk
  walk-request_page zero r v h =
      rw (entry-request_page r (index_at 0 v) (omega arith) (index_at-lt 0 v))
  walk-request_page (suc l) r v h =
      let j = index_at (suc l) v in
      rw (entry-request_page r j (omega arith) (index_at-lt (suc l) v))
        (elim (Bool-cases (is_present (entry k.mem r j))) [
          | inl there ↦
              let up = (paged.links r j (omega arith) (index_at-lt (suc l) v) there).0 in
              rw there (walk-request_page l (get_address (entry k.mem r j)) v (omega arith))
          | inr missing ↦ rw missing
        ])

  request_page-IsPaged :
      (n : ℕ)
      → ((j : ℕ) → page_locked (request_page k).0 j ≡ (page_locked k j || (n == j)))
      → IsPaged height parent (request_page k).0
  request_page-IsPaged n marked =
      let same = request_page-page_bitmap k in
      record {
        size_fits = rw same paged.size_fits;
        bytes = request_page-IsBytes k paged.bytes;
        scanned = request_page-IsScanned k paged.scanned;
        locked = λ p t. ground (arith, marked p, paged.locked p t);
        apart = λ p t. rw same (paged.apart p t);
        spare =
            λ p below clear. rw same (paged.spare p (rw same at below) (ground (arith, marked p)));
        links = λ p i tall i_fits there.
            let e = entry-request_page p i (omega arith) i_fits in
            rw e (paged.links p i tall i_fits (rw e at there));
      }

  pub request_page-IsGiven : 0 < spare_pages k → IsGiven height parent k (request_page k)
  request_page-IsGiven some_left =
      let small = paged.size_fits in
      let (n, free, given, marked) = request_page-found k (omega arith) paged.scanned some_left in
      let below = free.0 in
      record {
        page = n;
        address = given;
        fits = omega arith;
        unused = free.1;
        clear = paged.spare n below free.1;
        taken = ground (arith, marked n);
        plain = elim (Bool-cases (height n == 0)) [
          | inl plain ↦ ground arith
          | inr table ↦ absurd (ground (arith, free.1, paged.locked n (ground arith)))
        ];
        locks = λ j h. ground (arith, marked j);
        paged = request_page-IsPaged n marked;
        placed = request_page-page_bitmap k;
        untouched = λ x held low out. (request_page-Keeps k x (omega arith) out).1;
        walks = walk-request_page;
        spare = request_page-spare_pages k (omega arith) paged.scanned some_left;
      }
