-- ===== src/Pagination.antt =====
-- pagination/paginator.go: pages and results. An `int` is 64 bits wide.
pub mod Pages
pub mod Filters
pub mod Render
pub mod Like
pub mod Sorts
pub mod Examples
use gobox.Base.{ℕ, ◌+◌, ◌-◌, ◌*◌, ◌/◌, ◌≤◌, Bool, true, false, List, ltb, leb, if◌then◌else◌}
use gobox.Base.Int.{ℤ, pos, negsuc, pos_part, neg_part, is_pos, wrap64, sub_ℕ}

pub record Page : Type 0 where
  pub number : ℤ
  pub per_page : ℤ

abbrev pub def_page : ℕ
def_page = 1

abbrev pub def_per_page : ℕ
def_per_page = 20

abbrev pub max_per_page : ℕ
max_per_page = 100

-- x <= 0 replaced by a default
abbrev default_if_not_pos : ℕ → ℤ → ℤ
default_if_not_pos d x = if is_pos x then x else pos d

-- x > bound cut to the bound
abbrev cut : ℕ → ℤ → ℤ
cut bound x = if ltb bound (pos_part x) then pos bound else x

unfoldable pub normalize : Page → Page
normalize p = record {
  number = default_if_not_pos def_page p.number;
  per_page = cut max_per_page (default_if_not_pos def_per_page p.per_page);
}

-- The product of two integers.
infixl 70 ◌*ℤ◌
abbrev ◌*ℤ◌ : ℤ → ℤ → ℤ
a *ℤ b =
    sub_ℕ (pos_part a * pos_part b + neg_part a * neg_part b)
      (pos_part a * neg_part b + neg_part a * pos_part b)

-- x - 1
abbrev pred_ℤ : ℤ → ℤ
pred_ℤ x = sub_ℕ (pos_part x) (neg_part x + 1)

unfoldable pub offset : Page → ℤ
unfolding wrap64
offset p = wrap64 (wrap64 (pred_ℤ p.number) *ℤ p.per_page)

pub record Results {ℓ} (T : Type ℓ) : Type ℓ where
  pub items : List T
  pub total : ℕ
  pub page : ℤ
  pub per_page : ℤ
  pub total_pages : ℕ
  pub has_next : Bool
  pub has_prev : Bool

-- math.Ceil of the quotient of floats, which is exact for a total below 2^53 and a positive
-- divisor; a negative total and a divisor that is not positive are not modelled.
abbrev pub ceil_div : ℕ → ℕ → ℕ
ceil_div total per_page = (total + per_page - 1) / per_page

unfoldable pub new_result {ℓ} : {T : Type ℓ} → List T → ℕ → Page → Results T
new_result items total p =
    let pages = ceil_div total (pos_part p.per_page) in
    record {
      items = items;
      total = total;
      page = p.number;
      per_page = p.per_page;
      total_pages = pages;
      has_next = ltb (pos_part p.number) (pages + neg_part p.number);
      has_prev = ltb 1 (pos_part p.number);
    }

unfoldable pub presenter {ℓ κ} :
    {T : Type ℓ} {E : Type κ} → Results T → (List T → List E) → Results E
presenter r f = record {
  items = f r.items;
  total = r.total;
  page = r.page;
  per_page = r.per_page;
  total_pages = r.total_pages;
  has_next = r.has_next;
  has_prev = r.has_prev;
}
