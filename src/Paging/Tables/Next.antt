-- ===== src/Paging/Tables/Next.antt =====
-- One level of `map_mem`: the next table is there afterwards, and no translation has changed.
use eta_os.Base.{
  ◌/◌, ℕ, zero, suc, ◌+◌, ◌-◌, ◌*◌, ◌≤◌, ◌<◌, ◌≡◌, refl, ap, ◌≢◌, inl, inr, true, false, ◌&&◌, ◌||◌,
  none, arith, ◌==◌, Bool-cases, u64, ◌<<<◌,
}
use eta_os.Memory.{Mem}
use eta_os.Frames.{Kernel, page_locked, request_page}
use eta_os.Frames.Scan.{IsFirstFree}
use eta_os.Paging.{get_address, new_table, next_table}
use eta_os.Paging.Tables.{entry, is_present, index_at, walk, spare_pages, IsPaged}
use eta_os.Paging.Tables.Request.{request_page-page_bitmap, request_page-found}
use eta_os.Paging.Entry.{get_address-lt}
use eta_os.Paging.Tables.Frame.{KeepsPlain, IsFramed, IsFramed-refl, page_locked-le}
use eta_os.Paging.Tables.New
use eta_os.Paging.Tables.Grow

pub index_at-lt : (l v : ℕ) → index_at l v < 512
unfolding index_at
index_at-lt l v = omega arith

-- After the step `child` is the table that entry `i` of the table in page `p` points to.
pub record IsNext (height parent : ℕ → ℕ) (k : Kernel) (p i : ℕ) (next : Kernel × ℕ) : Type 0 where
  pub height' : ℕ → ℕ
  pub parent' : ℕ → ℕ
  pub child : ℕ
  pub paged : IsPaged height' parent' next.0
  pub address : next.1 ≡ child * 4096
  pub there : is_present (entry next.0.mem p i) ≡ true
  pub leads : get_address (entry next.0.mem p i) ≡ child
  pub kept : (r : ℕ) → height r ≢ 0 → height' r ≡ height r
  pub stays :
      (r j : ℕ)
      → height r ≢ 0
      → j < 512
      → is_present (entry k.mem r j) ≡ true
      → entry next.0.mem r j ≡ entry k.mem r j
  pub walks : (l r v : ℕ) → height r ≡ suc l → walk next.0.mem l r v ≡ walk k.mem l r v
  pub spare : spare_pages k ≤ spare_pages next.0 + 1
  pub framed : IsFramed k next.0
  pub locks : (j : ℕ) → page_locked k j ≡ true → page_locked next.0 j ≡ true
  pub plain : (j : ℕ) → page_locked k j ≡ true → height j ≡ 0 → height' j ≡ 0
  pub untouched : KeepsPlain height k next.0

-- From a table with no entry every walk fails.
walk_empty :
    (m : Mem) (l r v : ℕ)
    → ((j : ℕ) → j < 512 → is_present (entry m r j) ≡ false)
    → walk m l r v ≡ none
unfolding walk
walk_empty m zero r v h = rw (h (index_at 0 v) (index_at-lt 0 v))
walk_empty m (suc l) r v h = rw (h (index_at (suc l) v) (index_at-lt (suc l) v))

module _ (height parent : ℕ → ℕ) (k : Kernel) (paged : IsPaged height parent k) (p i : ℕ)
    (inner : 2 ≤ height p) (i_fits : i < 512) where
  module _ (n : ℕ) (absent : is_present (entry k.mem p i) ≡ false) (free : IsFirstFree k n)
      (given : (request_page k).1 ≡ n * 4096)
      (marked : (j : ℕ) → page_locked (request_page k).0 j ≡ (page_locked k j || (n == j))) where
    abbrev grown : Kernel
    grown = (new_table k (p * 4096) i (entry k.mem p i)).0

    walk-grown : (l r v : ℕ) → height r ≡ suc l → walk grown.mem l r v ≡ walk k.mem l r v
    unfolding walk
    walk-grown zero r v h = rw (
        New.entry_same height parent k paged p i n inner i_fits absent free given marked r
          (index_at 0 v) (omega arith) (index_at-lt 0 v) (inl λ e. omega (arith, ap height e)))
    walk-grown (suc l) r v h =
        let j = index_at (suc l) v in
        elim (Bool-cases ((r == p) && (j == i))) [
          | inl here ↦
              let r_p : r ≡ p = ground arith in
              let j_i : index_at (suc l) v ≡ i = ground arith in
              let none_left = walk_empty grown.mem l n v (
                New.new_absent height parent k paged p i n inner i_fits absent free given marked) in
              let to_new =
                New.entered_address height parent k paged p i n inner i_fits absent free given
                  marked in
              rw (r_p, j_i, absent)
                (ground (arith, none_left, to_new, ap (λ t. walk grown.mem l t v) to_new))
          | inr other ↦
              let same =
                New.entry_same height parent k paged p i n inner i_fits absent free given marked r j
                  (omega arith) (index_at-lt (suc l) v) (ground arith) in
              rw same (elim (Bool-cases (is_present (entry k.mem r j))) [
                | inl there ↦
                    let up = (paged.links r j (omega arith) (index_at-lt (suc l) v) there).0 in
                    rw there (walk-grown l (get_address (entry k.mem r j)) v (omega arith))
                | inr missing ↦ rw missing
              ])
        ]

    IsFramed-grown : IsFramed k grown
    IsFramed-grown =
        let small = paged.size_fits in
        let below = free.0 in
        let fits = i_fits in
        let bit = page_locked-le k p small (paged.locked p (let h = inner in omega arith)) in
        record {
          bitmap = unfold new_table in request_page-page_bitmap k;
          beyond = λ x (out, far).
              New.after_same height parent k paged p i n inner i_fits absent free given marked x out
                (omega arith) (omega arith);
        }

    grown-KeepsPlain : KeepsPlain height k grown
    grown-KeepsPlain x held low out =
        let fits = i_fits in
        let not_new : x / 4096 ≢ n = λ e. ground (arith, held, free.1, ap (page_locked k) e) in
        let not_table : x / 4096 ≢ p = λ e. omega (arith, inner, low, ap height e) in
        New.after_same height parent k paged p i n inner i_fits absent free given marked x out
          (omega arith) (omega arith)

    new_table-IsNext : IsNext height parent k p i (new_table k (p * 4096) i (entry k.mem p i))
    new_table-IsNext = record {
      height' = New.mark height n (height p - 1);
      parent' = New.mark parent n (p * 512 + i);
      child = n;
      paged = Grow.grown-IsPaged height parent k paged p i n inner i_fits absent free given marked;
      address = unfold new_table in given;
      there = New.entered_present height parent k paged p i n inner i_fits absent free given marked;
      leads = New.entered_address height parent k paged p i n inner i_fits absent free given marked;
      kept = λ r t. ground (
        arith,
        New.table_ne_new height parent k paged p i n inner i_fits absent free given marked r t,
      );
      stays = λ r j t j_fits there.
          New.entry_same height parent k paged p i n inner i_fits absent free given marked r j t
            j_fits
            (elim (Bool-cases ((r == p) && (j == i))) [
              | inl here ↦
                  let r_p : r ≡ p = ground arith in
                  let j_i : j ≡ i = ground arith in
                  let t : is_present (entry k.mem p i) ≡ true = rw (r_p, j_i) at there in
                  absurd (cc)
              | inr other ↦ ground arith
            ]);
      walks = walk-grown;
      spare = omega (
        arith,
        Grow.grown-spare_pages height parent k paged p i n inner i_fits absent free given marked,
      );
      framed = IsFramed-grown;
      locks = λ j h. ground (
        arith,
        h,
        Grow.page_locked-grown height parent k paged p i n inner i_fits absent free given marked j,
      );
      plain = λ j h low. ground (arith, free.1, h, low, ap (page_locked k) {x = n} {y = j});
      untouched = grown-KeepsPlain;
    }

  -- A table that is there already.
  old_table-IsNext :
      is_present (entry k.mem p i) ≡ true
      → IsNext height parent k p i (k, u64 (get_address (entry k.mem p i) <<< 12))
  old_table-IsNext there = record {
    height' = height;
    parent' = parent;
    child = get_address (entry k.mem p i);
    paged = paged;
    address = omega (arith, get_address-lt (entry k.mem p i));
    there = there;
    leads = refl;
    kept = λ r t. refl;
    stays = λ r j t j_fits h. refl;
    walks = λ l r v h. refl;
    spare = omega arith;
    framed = IsFramed-refl k;
    locks = λ j h. h;
    plain = λ j h low. low;
    untouched = λ x held low out. refl;
  }

  pub next_table-IsNext : 0 < spare_pages k → IsNext height parent k p i (next_table k (p * 4096) i)
  unfolding next_table
  next_table-IsNext some_left = elim (Bool-cases (is_present (entry k.mem p i))) [
    | inl there ↦ rw there (old_table-IsNext there)
    | inr absent ↦
        let small = paged.size_fits in
        let (n, free, given, marked) = request_page-found k (omega arith) paged.scanned some_left in
        rw absent (new_table-IsNext n absent free given marked)
  ]

-- The next table is one level lower.
pub child_height :
    (height parent : ℕ → ℕ) (k : Kernel) (p i : ℕ) (next : Kernel × ℕ)
    → (step : IsNext height parent k p i next) → 2 ≤ height p
    → i < 512
    → suc (step.height' step.child) ≡ height p
child_height height parent k p i next step inner i_fits =
    let same = step.kept p (omega arith) in
    let (up, _) = step.paged.links p i (omega arith) i_fits step.there in
    omega (arith, ap step.height' step.leads)
