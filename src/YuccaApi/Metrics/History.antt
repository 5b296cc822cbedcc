-- ===== src/YuccaApi/Metrics/History.antt =====
-- The pages of a repository's history.
use mathlib.Core.List.{Permᴰ}
use yucca.Common.{ℕ, suc, ◌==◌, ◌≤◌, ◌≡◌, refl, none, some, List, length, select, arith}
use yucca.Database.{Db, History}
use yucca.Database.Rows.{Distinct}
use yucca.Database.Pages.{walk, order_by}
use yucca.Database.Pages.Order.{IsOrder, order-Perm}
use yucca.Database.Pages.Walk.{walk-cursor}
use yucca.YuccaApi.Metrics.{list, cursor_of, newer, older_than}

pub newer-IsOrder : IsOrder cursor_of newer older_than
newer-IsOrder = record {
  irrefl = λ x. ground arith;
  asym = λ x y h. ground arith;
  trans = λ x y z h k. ground arith;
  yes = λ x y n h. ground arith;
  no = λ x y n h. ground arith;
}

-- Where no two rows of a repository's history fall in the same millisecond, a client that follows the cursors, on
-- pages of at least one row, gets exactly the rows of this repository, each once, the newest first.
pub walk-history :
    (id limit : ℕ) (db : Db)
    → 1 ≤ limit
    → Distinct cursor_of (select (λ h. h.repository_id == id) db.history)
    → (rows : List History) × (walk
          (suc (length (select (λ h. h.repository_id == id) db.history)))
          (λ cursor. list id cursor limit db)
          none
        ≡ some rows)
      × Permᴰ rows (select (λ h. h.repository_id == id) db.history)
      × (rows ≡ order_by newer (select (λ h. h.repository_id == id) db.history))
unfolding list
walk-history id limit db p d =
    let rows : List History = select (λ h. h.repository_id == id) db.history in
    (
      order_by newer rows,
      walk-cursor cursor_of newer older_than newer-IsOrder limit (suc (length rows)) rows p d
          (omega arith),
      order-Perm cursor_of newer older_than rows,
      refl,
    )
