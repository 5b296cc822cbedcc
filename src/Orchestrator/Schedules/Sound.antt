-- ===== src/Orchestrator/Schedules/Sound.antt =====
-- The keys of the tables of schedules hold after every request, also after one that fails halfway
-- (services/schedule.service.ts).
pub mod Requests
use yucca.Common.{
  ℕ, ◌==◌, ==_iff, ◌≡◌, refl, ap, sym, ◌∙◌, ◌≢◌, inl, inr, Bool, true, false, not, ◌||◌, ◌&&◌,
  Option, none, some, List, [], ◌∷◌, ◌++◌, any, arith, Bool-cases, if◌then◌else◌, append_nil,
  nat_eq-ne,
}
use mathlib.Core.Path.{subst}
use yucca.Common.Monad.{Result, ok, err, Keeps}
use yucca.Common.Sets.{contains, difference, Unique, nat_Eq}
use yucca.Common.Sets.Members.{Unique-difference, Unique-append}
use yucca.Database.{Error, update_rows, delete_rows}
use yucca.Orchestrator.{Tables, RepositorySchedule}
use yucca.Orchestrator.Schedules.{Scheduler, ScheduleRow, linked_to, is_link, Op}
use yucca.Orchestrator.Schedules.Rows.{
  create_row, update_row, remove_row, add_repository, remove_repository, add_repositories,
  remove_repositories, set_links,
}
use yucca.Orchestrator.Schedules.Links.{
  link, linked_to-append, linked_to-others, linked_to-delete, linked_to-keep,
}
use yucca.Orchestrator.Schedules.Links.Effects.{blocked, is_link-contains}

abbrev pub has : ℕ → List ScheduleRow → Bool
has id rows = any (λ r. r.id == id) rows

-- no id twice
abbrev pub UniqueIds : List ScheduleRow → Type 0
UniqueIds [] = Unit {0}
UniqueIds (r ∷ rows) = (has r.id rows ≡ false) × UniqueIds rows

pub record IsSound {J : Type 0} (s : Scheduler J) : Type 0 where
  pub ids : UniqueIds s.schedules
  pub linked :
      (id : ℕ) → has id s.schedules ≡ false → linked_to id s.tables.repository_schedules ≡ []
  pub once : (id : ℕ) → Unique (linked_to id s.tables.repository_schedules)

pub has-append :
    (id : ℕ) (rows : List ScheduleRow) (r : ScheduleRow)
    → has id (rows ++ r ∷ []) ≡ (has id rows || (r.id == id))
has-append id [] r = ground arith
has-append id (x ∷ rows) r = ground (arith, has-append id rows r)

UniqueIds-append :
    (rows : List ScheduleRow) (r : ScheduleRow)
    → UniqueIds rows
    → has r.id rows ≡ false
    → UniqueIds (rows ++ r ∷ [])
UniqueIds-append [] r u n = (refl, tt)
UniqueIds-append (x ∷ rows) r (new, u) n = (
  ground (arith, has-append x.id rows r, new, n, ==_iff x.id r.id, ==_iff r.id x.id),
  UniqueIds-append rows r u (ground (arith, n)),
)

pub has-update :
    (id other : ℕ) (f : ScheduleRow → ScheduleRow) (rows : List ScheduleRow)
    → ((r : ScheduleRow) → (f r).id ≡ r.id)
    → has other (update_rows (λ r. r.id == id) f rows) ≡ has other rows
has-update id other f [] k = refl
has-update id other f (r ∷ rows) k = ground (arith, k r, has-update id other f rows k)

UniqueIds-update :
    (id : ℕ) (f : ScheduleRow → ScheduleRow) (rows : List ScheduleRow)
    → ((r : ScheduleRow) → (f r).id ≡ r.id)
    → UniqueIds rows
    → UniqueIds (update_rows (λ r. r.id == id) f rows)
UniqueIds-update id f [] k u = tt
UniqueIds-update id f (r ∷ rows) k (new, u) = (
  ground (arith, new, k r, has-update id r.id f rows k, has-update id (f r).id f rows k),
  UniqueIds-update id f rows k u,
)

pub has-delete :
    (id other : ℕ) (rows : List ScheduleRow)
    → has other (delete_rows (λ r. r.id == id) rows) ≡ (has other rows && not (other == id))
has-delete id other [] = refl
has-delete id other (r ∷ rows) = ground (arith, has-delete id other rows)

UniqueIds-delete :
    (id : ℕ) (rows : List ScheduleRow)
    → UniqueIds rows
    → UniqueIds (delete_rows (λ r. r.id == id) rows)
UniqueIds-delete id [] u = tt
UniqueIds-delete id (r ∷ rows) (new, u) = elim (Bool-cases (r.id == id)) [
  | inl gone ↦ rw gone (UniqueIds-delete id rows u)
  | inr kept ↦ rw kept (ground (arith, new, has-delete id r.id rows), UniqueIds-delete id rows u)
]

pub linked_to-remove :
    (id other : ℕ) (links : List RepositorySchedule)
    → linked_to other (delete_rows (λ l. l.schedule == id) links)
      ≡ (if other == id then [] else linked_to other links)
linked_to-remove id other [] = ground arith
linked_to-remove id other (l ∷ links) = ground (arith, linked_to-remove id other links)

linked_to-one :
    (id r other : ℕ) → linked_to other (link id r ∷ []) ≡ (if other == id then r ∷ [] else [])
linked_to-one id r other = ground arith

module _ {J : Type 0} where
  pub create_row-IsSound : (r : ScheduleRow) → Keeps (IsSound {J = J}) (create_row r)
  unfolding create_row
  create_row-IsSound r = record {
    keep = λ s o. elim (Bool-cases (has r.id s.schedules)) [
      | inl taken ↦ rw taken o
      | inr free ↦ rw free (record {
        ids = UniqueIds-append s.schedules r o.ids free;
        linked = λ id h. o.linked id (ground (arith, h, has-append id s.schedules r));
        once = o.once;
      })
    ];
  }

  pub update_row-IsSound :
      (id : ℕ) (f : ScheduleRow → ScheduleRow)
      → ((r : ScheduleRow) → (f r).id ≡ r.id)
      → Keeps (IsSound {J = J}) (update_row id f)
  unfolding update_row
  update_row-IsSound id f k = record {
    keep = λ s o. elim (Bool-cases (has id s.schedules)) [
      | inr free ↦ rw free o
      | inl known ↦ rw known (record {
        ids = UniqueIds-update id f s.schedules k o.ids;
        linked = λ other h. o.linked other (ground (arith, h, has-update id other f s.schedules k));
        once = o.once;
      })
    ];
  }

  pub remove_row-IsSound : (id : ℕ) → Keeps (IsSound {J = J}) (remove_row id)
  unfolding remove_row
  remove_row-IsSound id = record {
    keep = λ s o. elim (Bool-cases (any (λ i. i.schedule_id == id) s.tables.integrations)) [
      | inl used ↦ rw used o
      | inr free ↦ rw free (record {
        ids = UniqueIds-delete id s.schedules o.ids;
        linked = λ other h. ground (
          arith,
          h,
          o.linked other,
          has-delete id other s.schedules,
          linked_to-remove id other s.tables.repository_schedules,
        );
        once = λ other. elim (Bool-cases (other == id)) [
          | inl same ↦ rw (linked_to-remove id other s.tables.repository_schedules) (rw same tt)
          | inr n ↦
              rw (linked_to-remove id other s.tables.repository_schedules) (rw n (o.once other))
        ];
      })
    ];
  }

  pub add_repository-IsSound : (id r : ℕ) → Keeps (IsSound {J = J}) (add_repository id r)
  unfolding add_repository
  add_repository-IsSound id r = record {
    keep = λ s o. elim (Bool-cases (blocked id r s)) [
      | inl bad ↦ rw bad o
      | inr free ↦
          let links = s.tables.repository_schedules in
          rw free (record {
            ids = o.ids;
            linked = λ other h. elim (Bool-cases (other == id)) [
              | inl same ↦ absurd (ground (arith, same, h, free, ==_iff other id))
              | inr n ↦
                  linked_to-append other links (link id r ∷ [])
                  ∙ ground (arith, o.linked other h, linked_to-one id r other, n)
            ];
            once = λ other. elim (Bool-cases (other == id)) [
              | inl same ↦ rw (linked_to-append other links (link id r ∷ [])) (
                  Unique-append (linked_to other links) (linked_to other (link id r ∷ []))
                    (o.once other) (rw (linked_to-one id r other) (rw same (refl, tt)))
                    (λ p h. ground (
                      arith,
                      h,
                      linked_to-one id r other,
                      same,
                      free,
                      is_link-contains id r links,
                      ==_iff other id,
                      ==_iff r p,
                    )))
              | inr n ↦ rw (linked_to-append other links (link id r ∷ [])) (
                  rw (linked_to-one id r other)
                    (rw n (rw (append_nil (linked_to other links)) (o.once other))))
            ];
          })
    ];
  }

  pub remove_repository-IsSound : (id r : ℕ) → Keeps (IsSound {J = J}) (remove_repository id r)
  unfolding remove_repository
  remove_repository-IsSound id r = record {
    keep = λ s o.
        let links = s.tables.repository_schedules in
        record {
          ids = o.ids;
          linked = λ other h. elim (Bool-cases (other == id)) [
            | inl same ↦
                ground (arith, o.linked other h, linked_to-delete id r links, ==_iff other id, same)
            | inr n ↦ linked_to-keep id other r links (nat_eq-ne other id n) ∙ o.linked other h
          ];
          once = λ other. elim (Bool-cases (other == id)) [
            | inl same ↦
                subst (λ t. Unique (linked_to t (delete_rows (is_link id r) links)))
                  (sym ((==_iff other id).0 same))
                  (rw (linked_to-delete id r links)
                    (Unique-difference (linked_to id links) (r ∷ []) (o.once id)))
            | inr n ↦ rw (linked_to-keep id other r links (nat_eq-ne other id n)) (o.once other)
          ];
        };
  }
