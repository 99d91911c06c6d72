-- ===== src/Pagination/Pages.antt =====
-- Page numbers, offsets and page counts of pagination/paginator.go.
use native.Mathlib.Nat.{div-add-mod, mod-lt}
use native.Mathlib.Decide.{dec_lt}
use gobox.Base.{ℕ, suc, ◌+◌, ◌-◌, ◌*◌, ◌^◌, ◌≤◌, ◌<◌, ◌≡◌, ◌↔◌, true, List, arith}
use gobox.Base.Int.{pos, negsuc, pos_part}
use gobox.Pagination.{Page, normalize, offset, new_result, ceil_div, max_per_page}

-- A page whose number is at least 1 and whose size is between 1 and MaxPerPage.
pub record IsNormal (p : Page) : Type 0 where
  pub number_pos : 1 ≤ pos_part p.number
  pub per_page_pos : 1 ≤ pos_part p.per_page
  pub per_page_max : pos_part p.per_page ≤ max_per_page

-- Normalising any page gives a normal one, and leaves a normal one as it is.
normalize-IsNormal : (p : Page) → IsNormal (normalize p) × (normalize (normalize p) ≡ normalize p)
unfolding normalize
normalize-IsNormal p = (ground arith, ground arith)

-- The offset of a page with natural numbers, while the product fits an int.
pub offset-eq :
    (number per_page : ℕ)
    → 1 ≤ number
    → (number - 1) * per_page < 2 ^ 63
    → number < 2 ^ 63
    → offset (record { number = pos number; per_page = pos per_page })
      ≡ pos ((number - 1) * per_page)
unfolding offset
offset-eq number per_page h k l = ground arith

-- If the product of the pages before and the size is at least 2^63 and below 2^64, it wraps: the
-- offset is negative.
offset_wraps :
    (number per_page : ℕ)
    → 1 ≤ number
    → number < 2 ^ 63
    → 2 ^ 63 ≤ (number - 1) * per_page
    → (number - 1) * per_page < 2 ^ 64
    → offset (record { number = pos number; per_page = pos per_page })
      ≡ negsuc (2 ^ 64 - 1 - (number - 1) * per_page)
unfolding offset
offset_wraps number per_page h l k m = ground arith

ceil_div_bounds :
    (total per_page : ℕ)
    → 1 ≤ per_page
    → (total ≤ ceil_div total per_page * per_page)
      × (ceil_div total per_page * per_page < total + per_page)
ceil_div_bounds total per_page h =
    omega (arith, div-add-mod (total + per_page - 1) per_page, mod-lt (total + per_page - 1) h)

lt-iff-mul-lt :
    (n pages total per_page : ℕ)
    → 1 ≤ per_page
    → total ≤ pages * per_page
    → pages * per_page < total + per_page
    → (n < pages) ↔ (n * per_page < total)
lt-iff-mul-lt n pages total per_page h a b = (
  λ k. let below : suc n * per_page ≤ pages * per_page = grind arith in omega arith,
  λ k. elim (dec_lt n pages) [
    | yes below ↦ below
    | no above ↦
        let past : pages * per_page ≤ n * per_page =
          let le : pages ≤ n = omega arith in grind arith in
        absurd (omega arith)
  ],
)

-- With a positive page size, the pages of a result are as many as hold all records and no more, there is a next page exactly
-- if records remain after the end of this one, and a previous one exactly after the first.
pub new_result_pages {ℓ} :
    {T : Type ℓ} (items : List T) (total number per_page : ℕ)
    → 1 ≤ per_page
    → let r = new_result items total (record { number = pos number; per_page = pos per_page }) in
      (total ≤ r.total_pages * per_page)
      × (r.total_pages * per_page < total + per_page)
      × ((r.has_next ≡ true) ↔ (number * per_page < total))
      × ((r.has_prev ≡ true) ↔ (1 < number))
unfolding new_result
new_result_pages items total number per_page h =
    let (enough, tight) = ceil_div_bounds total per_page h in
    let (next, prev) =
      lt-iff-mul-lt number (ceil_div total per_page) total per_page h enough tight in
    (
      enough,
      tight,
      (λ e. next (ground arith), λ l. let m = prev l in ground arith),
      (λ e. ground arith, λ l. ground arith),
    )
