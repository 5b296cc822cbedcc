-- ===== src/MetricsWorker/Stream.antt =====
-- The paged reading of the buckets.
use mathlib.Core.List.{append_assoc}
use yucca.Common.{
  ℕ, zero, suc, ◌≤◌, ◌<◌, ◌≡◌, refl, ap, inl, inr, Bool, Option, none, some, List, [], ◌∷◌, ◌++◌,
  length, take, take_all, get_last?, ltb, map, arith, Bool-cases, Option-cases,
}
use yucca.Common.Monad.{Result, ok}
use yucca.Database.{Error}
use yucca.Database.Pages.{where_cursor}
use yucca.Database.Pages.Order.{IsOrder, Sorted, select-after}
use yucca.Database.Pages.Walk.{IsCut, cut, length-middle}
use yucca.MetricsWorker.{Entry, to_stats, get_bucket_stats_stream}

abbrev pub earlier : Entry → Entry → Bool
earlier a b = ltb a.bucket b.bucket

abbrev pub after_marker : ℕ → Entry → Bool
after_marker marker e = ltb marker e.bucket

by_bucket-IsOrder : IsOrder (λ (e : Entry). e.bucket) earlier after_marker
by_bucket-IsOrder = record {
  irrefl = λ x. ground arith;
  asym = λ x y h. ground arith;
  trans = λ x y z h k. ground arith;
  yes = λ x y n h. ground arith;
  no = λ x y n h. ground arith;
}

-- The admin API gives at most `max-entries` buckets after the marker, in the order of their names.
abbrev pub Pages : (page_size : ℕ) → List Entry → (Option ℕ → Result Error (List Entry)) → Type 0
Pages page_size buckets admin_request =
    (marker : Option ℕ)
    → admin_request marker ≡ ok (take page_size (where_cursor after_marker marker buckets))

map-append : (xs ys : List Entry) → map to_stats (xs ++ ys) ≡ map to_stats xs ++ map to_stats ys
map-append [] ys = refl
map-append (x ∷ xs) ys = ap (λ t. to_stats x ∷ t) (map-append xs ys)

length-take : (n : ℕ) (xs : List Entry) → n ≤ length xs → length (take n xs) ≡ n
length-take zero xs h = refl
length-take (suc n) [] h = absurd (omega arith)
length-take (suc n) (x ∷ xs) h = ap suc (length-take n xs (omega arith))

stream_rest :
    (fuel page_size : ℕ) (buckets seen todo : List Entry)
    (admin_request : Option ℕ → Result Error (List Entry)) (marker : Option ℕ)
    → 1 ≤ page_size
    → Pages page_size buckets admin_request
    → Sorted (λ e. e.bucket) earlier after_marker buckets
    → buckets ≡ seen ++ todo
    → where_cursor after_marker marker buckets ≡ todo
    → length todo < fuel
    → get_bucket_stats_stream fuel page_size admin_request marker ≡ some (ok (map to_stats todo))
unfolding get_bucket_stats_stream
stream_rest zero page_size buckets seen todo admin_request marker p pages s e w h =
    absurd (omega arith)
stream_rest (suc fuel) page_size buckets seen todo admin_request marker p pages s e w h =
    elim (Bool-cases (ltb (length todo) page_size)) [
      | inl short ↦ elim (Option-cases (get_last? todo)) [
        | inl nothing ↦ ground (arith, pages marker, take_all page_size todo)
        | inr (l, last) ↦ ground (arith, pages marker, take_all page_size todo)
      ]
      | inr more ↦
          let c = cut (λ e. e.bucket) earlier after_marker page_size todo p (ground arith) in
          let split : buckets ≡ (seen ++ c.init) ++ c.last ∷ c.rest =
            cc (e, c.whole, append_assoc seen c.init (c.last ∷ c.rest)) in
          let next : where_cursor after_marker (some c.last.bucket) buckets ≡ c.rest = rw split (
            select-after (λ e. e.bucket) earlier after_marker by_bucket-IsOrder (seen ++ c.init)
              c.last c.rest (rw split at s)) in
          let rest =
            stream_rest fuel page_size buckets ((seen ++ c.init) ++ c.last ∷ []) c.rest
              admin_request (some c.last.bucket) p pages s
              (cc (split, append_assoc (seen ++ c.init) (c.last ∷ []) c.rest)) next (less c) in
          let joined : map to_stats (take page_size todo) ++ map to_stats c.rest
              ≡ map to_stats todo =
            cc (
              c.page,
              c.whole,
              append_assoc c.init (c.last ∷ []) c.rest,
              map-append (c.init ++ c.last ∷ []) c.rest,
            ) in
          ground (arith, pages marker, c.ends, length-take page_size todo)
    ]
  where
    less : (c : IsCut (λ e. e.bucket) earlier after_marker page_size todo) → length c.rest < fuel
    less c =
        let m = length-middle (λ e. e.bucket) earlier after_marker c.init c.last c.rest in
        ground (arith, c.whole)

-- If the admin API lists the buckets in the order of their names and pages them by the marker, the
-- stream, on pages of at least one bucket, ends and yields the stats of every bucket once, in order.
pub get_bucket_stats_stream-all :
    (page_size : ℕ) (buckets : List Entry) (admin_request : Option ℕ → Result Error (List Entry))
    → 1 ≤ page_size
    → Pages page_size buckets admin_request
    → Sorted (λ e. e.bucket) earlier after_marker buckets
    → get_bucket_stats_stream (suc (length buckets)) page_size admin_request none
      ≡ some (ok (map to_stats buckets))
get_bucket_stats_stream-all page_size buckets admin_request p pages s =
    stream_rest (suc (length buckets)) page_size buckets [] buckets admin_request none p pages s
      refl refl (omega arith)
