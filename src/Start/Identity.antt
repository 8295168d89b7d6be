-- ===== src/Start/Identity.antt =====
-- The pages that a loop of `prepare_mem` maps to themselves.
use eta_os.Base.{
  ℕ, zero, suc, ◌+◌, ◌-◌, ◌*◌, ◌/◌, ◌%◌, ◌^◌, ◌≤◌, ◌<◌, ◌≡◌, refl, ap, ◌∙◌, ◌≢◌, ◌⊎◌, inl, inr,
  some, arith, ltb, ◌==◌, Bool-cases, u64,
}
use eta_os.Paging.{map_mem}
use eta_os.Paging.Tables.Translate.{
  translate_page, IsMapped-translate, IsMapped-translate_other, IsMapped-IsPaged,
}
use eta_os.Paging.Tables.MapMem.{IsMapped, map_mem-IsMapped}
use eta_os.Paging.Tables.{translate, spare_pages, IsPaged}
use eta_os.Paging.Tables.Ready.{
  Ready, reach-block, Ready-IsMapped, IsMapped-Ready, IsMapped-spare_pages, IsMapped-IsFramed,
}
use eta_os.Start.{map_identity}
use eta_os.Frames.{Kernel}

-- For `left` pages from page `v` on, up to three tables for each last table that they meet.
abbrev pub tables_for : ℕ → ℕ → ℕ
tables_for v left = 3 * ((v + left + 511) / 512 - v / 512)

-- There are pages for the tables; the tables for page `v`, where they are there, are a credit of 3.
abbrev HasTables : Kernel → ℕ → ℕ → ℕ → ℕ → Type 0
HasTables k root v left credit =
    (tables_for v left ≤ spare_pages k + credit)
    × ((credit ≡ 0) ⊎ ((credit ≡ 3) × (v % 512 ≢ 0) × Ready k root v))

-- One round.
HasTables-IsMapped :
    (height parent : ℕ → ℕ) (k : Kernel) (root v left credit : ℕ)
    → IsPaged height parent k
    → height root ≡ 4
    → HasTables k root v (suc left) credit
    → let k' = map_mem k (root * 4096) (v * 4096) (v * 4096) in
      (pages : ℕ) × IsMapped height k root (v * 4096 / 4096) (v * 4096) pages k'
      × (spare_pages k + credit ≤ spare_pages k' + 3)
HasTables-IsMapped height parent k root v left credit paged top (enough, inl none_yet) =
    let k' = map_mem k (root * 4096) (v * 4096) (v * 4096) in
    let done =
      map_mem-IsMapped height parent k paged root (v * 4096) (v * 4096) top (omega arith) in
    let few = IsMapped-spare_pages k root (v * 4096) (v * 4096) 3 k' done in (3, done, omega arith)
HasTables-IsMapped height parent k root v left credit paged top (enough, inr (three, _, ready)) =
    let k' = map_mem k (root * 4096) (v * 4096) (v * 4096) in
    let page : v * 4096 / 4096 ≡ v = omega arith in
    let done =
      Ready-IsMapped height parent k paged root (v * 4096) (v * 4096) top (rw page ready) in
    let few = IsMapped-spare_pages k root (v * 4096) (v * 4096) 0 k' done in (0, done, omega arith)

-- What is left for the next page.
next-HasTables :
    (k : Kernel) (root v left : ℕ)
    → Ready k root (v * 4096 / 4096)
    → tables_for v (suc left) ≤ spare_pages k + 3
    → (credit : ℕ) × HasTables k root (suc v) left credit
      × (tables_for v (suc left) + credit ≡ tables_for (suc v) left + 3)
next-HasTables k root v left (t, way) enough = elim (Bool-cases ((v + 1) % 512 == 0)) [
  | inl last ↦ let e : (v + 1) % 512 ≡ 0 = ground arith in (0, (omega arith, inl refl), omega arith)
  | inr inside ↦
      let e : (v + 1) % 512 ≢ 0 = ground arith in
      (
        3,
        (
          omega arith,
          inr (
            refl,
            omega arith,
            (t, reach-block k root (suc v) (v * 4096 / 4096) (omega arith) ∙ way),
          ),
        ),
        omega arith,
      )
]

tables_left :
    (k : Kernel) (root v credit : ℕ)
    → HasTables k root v 0 credit
    → spare_pages k + credit ≤ spare_pages k + tables_for v 0
tables_left k root v credit (_, inl none_yet) = omega arith
tables_left k root v credit (_, inr (three, middle, _)) = omega arith

-- The tables after the loop, the pages left for more, and the translations.
pub record IsIdentity (k : Kernel) (root v left credit : ℕ) (k' : Kernel) : Type 0 where
  pub height : ℕ → ℕ
  pub parent : ℕ → ℕ
  pub paged : IsPaged height parent k'
  pub top : height root ≡ 4
  pub framed : k'.page_bitmap ≡ k.page_bitmap
  pub spare : spare_pages k + credit ≤ spare_pages k' + tables_for v left
  pub inside :
      (a : ℕ)
      → v * 4096 ≤ a
      → a < (v + left) * 4096
      → translate k'.mem (root * 4096) a ≡ some (a / 4096)
  pub outside :
      (a : ℕ)
      → a < 2 ^ 48
      → (a < v * 4096) ⊎ ((v + left) * 4096 ≤ a)
      → translate k'.mem (root * 4096) a ≡ translate k.mem (root * 4096) a

pub map_identity-IsIdentity :
    (left : ℕ) (height parent : ℕ → ℕ) (k : Kernel) (root v credit : ℕ)
    → IsPaged height parent k
    → height root ≡ 4
    → v + left ≤ 2 ^ 36
    → HasTables k root v left credit
    → IsIdentity k root v left credit (map_identity left k (root * 4096) (v * 4096))
unfolding map_identity
map_identity-IsIdentity zero height parent k root v credit paged top fits tables = record {
  height = height;
  parent = parent;
  paged = paged;
  top = top;
  framed = refl;
  spare = tables_left k root v credit tables;
  inside = λ a l u. absurd (omega arith);
  outside = λ a low out. refl;
}
map_identity-IsIdentity (suc left) height parent k root v credit paged top fits tables =
    let k₁ = map_mem k (root * 4096) (v * 4096) (v * 4096) in
    let (pages, done, few) =
      HasTables-IsMapped height parent k root v left credit paged top tables in
    let (had, _) = tables in
    let here = IsMapped-translate k root (v * 4096) (v * 4096) pages k₁ done in
    let other = IsMapped-translate_other k root (v * 4096) (v * 4096) pages k₁ done in
    let paged₁ = IsMapped-IsPaged k root (v * 4096) (v * 4096) pages k₁ done in
    let ready = IsMapped-Ready k root (v * 4096) (v * 4096) pages k₁ done in
    let (credit', tables', same_sum) = next-HasTables k₁ root v left ready (omega arith) in
    let rest =
      map_identity-IsIdentity left done.height done.parent k₁ root (suc v) credit' paged₁ done.top
        (omega arith) tables' in
    let bitmap₁ = (IsMapped-IsFramed k root (v * 4096) (v * 4096) pages k₁ done).bitmap in
    let used = rest.spare in
    let next : u64 (v * 4096 + 4096) ≡ suc v * 4096 = omega arith in
    rw next (record {
      height = rest.height;
      parent = rest.parent;
      paged = rest.paged;
      top = rest.top;
      framed = rest.framed ∙ bitmap₁;
      spare = omega arith;
      inside = λ a l u. elim (Bool-cases (ltb a (suc v * 4096))) [
        | inl below ↦
            let under : a < suc v * 4096 = ground arith in
            let same : a / 4096 ≡ v * 4096 / 4096 = omega arith in
            let fit : v * 4096 / 4096 % 2 ^ 40 ≡ a / 4096 = omega arith in
            rest.outside a (omega arith) (inl under)
            ∙ translate_page k₁.mem (root * 4096) a (v * 4096) same
            ∙ here
            ∙ ap some fit
        | inr above ↦ rest.inside a (ground arith) (omega arith)
      ];
      outside = λ a low out.
          rest.outside a low
            (elim out [ inl under ↦ inl (omega arith) | inr over ↦ inr (omega arith) ])
          ∙ other a (elim out [ inl under ↦ omega arith | inr over ↦ omega arith ]);
    })

module _ (height parent : ℕ → ℕ) (k : Kernel) (root v left : ℕ) (paged : IsPaged height parent k)
    (top : height root ≡ 4) (fits : v + left ≤ 2 ^ 36)
    (enough : tables_for v left ≤ spare_pages k) where
  -- Each address in the pages is translated to its own page.
  map_identity-translate :
      (a : ℕ)
      → v * 4096 ≤ a
      → a < (v + left) * 4096
      → translate (map_identity left k (root * 4096) (v * 4096)).mem (root * 4096) a
        ≡ some (a / 4096)
  map_identity-translate a l u =
      let done =
        map_identity-IsIdentity left height parent k root v 0 paged top fits
          (omega arith, inl refl) in
      done.inside a l u

  -- The translation of the others is as before.
  map_identity-translate_outside :
      (a : ℕ)
      → a < 2 ^ 48
      → (a < v * 4096) ⊎ ((v + left) * 4096 ≤ a)
      → translate (map_identity left k (root * 4096) (v * 4096)).mem (root * 4096) a
        ≡ translate k.mem (root * 4096) a
  map_identity-translate_outside a low out =
      let done =
        map_identity-IsIdentity left height parent k root v 0 paged top fits
          (omega arith, inl refl) in
      done.outside a low out
