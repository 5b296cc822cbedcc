-- ===== src/Orchestrator/Schedules/Links.antt =====
-- What the update of the links of a schedule leaves (services/schedule.service.ts, applyScheduleUpdate).
pub mod Effects
use yucca.Common.{
  ℕ, ◌==◌, ==_iff, nat_eq-ne, ◌≡◌, refl, ap, sym, ◌∙◌, ◌≢◌, inl, inr, Bool, true, false, ◌&&◌, ◌||◌,
  not, Option, none, some, List, [], ◌∷◌, ◌++◌, any, map, arith, Bool-cases, append_nil, append_one,
}
use yucca.Common.Monad.{Result, ok, err, Result-cases}
use yucca.Common.Sets.{contains, difference, dedupe, Unique, nat_Eq}
use yucca.Common.Sets.Members.{
  contains-difference, contains-dedupe_onto, Unique-difference, Unique-append, contains-append,
}
use yucca.Database.{Error, constraint, delete_rows}
use yucca.Orchestrator.{Tables, RepositorySchedule}
use yucca.Orchestrator.Schedules.{Scheduler, linked_to, is_link, Op}
use yucca.Orchestrator.Schedules.Rows.{
  add_repository, remove_repository, add_repositories, remove_repositories, set_links,
}

abbrev pub link : ℕ → ℕ → RepositorySchedule
link id r = record { schedule = id; repository = r }

abbrev pub drop_links : ℕ → List ℕ → List RepositorySchedule → List RepositorySchedule
drop_links id [] links = links
drop_links id (r ∷ rs) links = drop_links id rs (delete_rows (is_link id r) links)

abbrev pub relinked : ℕ → Option (List ℕ) → List RepositorySchedule → List RepositorySchedule
relinked id none links = links
relinked id (some requested) links =
    drop_links id (difference (dedupe (linked_to id links)) requested)
      (links ++ map (link id) (difference requested (linked_to id links)))

pub linked_to-append :
    (id : ℕ) (links more : List RepositorySchedule)
    → linked_to id (links ++ more) ≡ linked_to id links ++ linked_to id more
linked_to-append id [] more = refl
linked_to-append id (l ∷ links) more = ground (arith, linked_to-append id links more)

pub linked_to-map : (id : ℕ) (rs : List ℕ) → linked_to id (map (link id) rs) ≡ rs
linked_to-map id [] = refl
linked_to-map id (r ∷ rs) = ground (arith, linked_to-map id rs)

pub linked_to-others :
    (id other : ℕ) (rs : List ℕ) → other ≢ id → linked_to other (map (link id) rs) ≡ []
linked_to-others id other [] n = refl
linked_to-others id other (r ∷ rs) n = ground (arith, n, linked_to-others id other rs n)

pub linked_to-delete :
    (id r : ℕ) (links : List RepositorySchedule)
    → linked_to id (delete_rows (is_link id r) links) ≡ difference (linked_to id links) (r ∷ [])
linked_to-delete id r [] = refl
linked_to-delete id r (l ∷ links) = ground (arith, linked_to-delete id r links)

pub linked_to-keep :
    (id other r : ℕ) (links : List RepositorySchedule)
    → other ≢ id
    → linked_to other (delete_rows (is_link id r) links) ≡ linked_to other links
linked_to-keep id other r [] n = refl
linked_to-keep id other r (l ∷ links) n = ground (arith, n, linked_to-keep id other r links n)

difference-step :
    (xs rs : List ℕ) (r : ℕ) → difference (difference xs (r ∷ [])) rs ≡ difference xs (r ∷ rs)
difference-step [] rs r = refl
difference-step (x ∷ xs) rs r = ground (arith, difference-step xs rs r)

difference_nil : (xs : List ℕ) → difference xs [] ≡ xs
difference_nil [] = refl
difference_nil (x ∷ xs) = ap (λ t. x ∷ t) (difference_nil xs)

linked_to-drop :
    (id : ℕ) (rs : List ℕ) (links : List RepositorySchedule)
    → linked_to id (drop_links id rs links) ≡ difference (linked_to id links) rs
linked_to-drop id [] links = sym (difference_nil (linked_to id links))
linked_to-drop id (r ∷ rs) links =
    linked_to-drop id rs (delete_rows (is_link id r) links)
    ∙ ap (λ t. difference t rs) (linked_to-delete id r links)
    ∙ difference-step (linked_to id links) rs r

drop-others :
    (id other : ℕ) (rs : List ℕ) (links : List RepositorySchedule)
    → other ≢ id
    → linked_to other (drop_links id rs links) ≡ linked_to other links
drop-others id other [] links n = refl
drop-others id other (r ∷ rs) links n =
    drop-others id other rs (delete_rows (is_link id r) links) n ∙ linked_to-keep id other r links n

-- The links of other schedules stay.
pub relinked-others :
    (id other : ℕ) (requested : Option (List ℕ)) (links : List RepositorySchedule)
    → other ≢ id
    → linked_to other (relinked id requested links) ≡ linked_to other links
relinked-others id other none links n = refl
relinked-others id other (some requested) links n =
    let new = difference requested (linked_to id links) in
    drop-others id other (difference (dedupe (linked_to id links)) requested)
      (links ++ map (link id) new) n
    ∙ linked_to-append other links (map (link id) new)
    ∙ ap (λ t. linked_to other links ++ t) (linked_to-others id other new n)
    ∙ append_nil (linked_to other links)

relinked-own :
    (id : ℕ) (requested : List ℕ) (links : List RepositorySchedule)
    → linked_to id (relinked id (some requested) links)
      ≡ difference
          (linked_to id links ++ difference requested (linked_to id links))
          (difference (dedupe (linked_to id links)) requested)
relinked-own id requested links =
    let new = difference requested (linked_to id links) in
    let gone = difference (dedupe (linked_to id links)) requested in
    linked_to-drop id gone (links ++ map (link id) new)
    ∙ ap (λ t. difference t gone)
        (linked_to-append id links (map (link id) new)
          ∙ ap (λ t. linked_to id links ++ t) (linked_to-map id new))

-- The links are then the requested ones.
pub relinked-contains :
    (id : ℕ) (requested : List ℕ) (links : List RepositorySchedule) (p : ℕ)
    → contains (linked_to id (relinked id (some requested) links)) p ≡ contains requested p
relinked-contains id requested links p =
    let old = linked_to id links in
    let new = difference requested old in
    let gone = difference (dedupe old) requested in
    ap (λ t. contains t p) (relinked-own id requested links)
    ∙ ground (
      arith,
      contains-difference (old ++ new) gone p,
      contains-append old new p,
      contains-difference requested old p,
      contains-difference (dedupe old) requested p,
      contains-dedupe_onto [] old p,
    )

-- none of them there yet
abbrev pub New : List ℕ → List ℕ → Type 0
New rs old = (p : ℕ) → contains rs p ≡ true → contains old p ≡ false

pub relinked-Unique :
    (id : ℕ) (requested : List ℕ) (links : List RepositorySchedule)
    → Unique requested
    → Unique (linked_to id links)
    → Unique (linked_to id (relinked id (some requested) links))
relinked-Unique id requested links r u =
    let old = linked_to id links in
    let new = difference requested old in
    rw (relinked-own id requested links) (
      Unique-difference (old ++ new) (difference (dedupe old) requested) (
        Unique-append old new u (Unique-difference requested old r)
          (λ p h. ground (arith, h, contains-difference requested old p))))
