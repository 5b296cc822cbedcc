-- ===== src/OrchestratorUi/Schedules/Following.antt =====
-- The interface that follows the events of the agent shows what the agent would answer.
use yucca.Common.{
  ℕ, ◌==◌, ==_iff, nat_eq-ne, ◌≡◌, refl, ap, sym, ◌∙◌, ◌≢◌, inl, inr, Bool, true, false, not, some,
  List, [], ◌∷◌, ◌++◌, find, map, select, arith, Bool-cases, String, if◌then◌else◌, append_nil,
}
use yucca.Common.Monad.{ok}
use yucca.Database.{update_rows, delete_rows}
use yucca.Orchestrator.{RepositorySchedule}
use yucca.Orchestrator.Schedules.{
  Scheduler, ScheduleRow, Schedule, Registry, Event, schedule_create, schedule_update,
  schedule_delete, CreateDto, UpdateDto, linked_to, sort_by, insert_by, position, to_dto, whole,
  set_row,
}
use yucca.Orchestrator.Schedules.Rows.{get_all}
use yucca.Orchestrator.Schedules.Links.{
  link, relinked, relinked-others, linked_to-append, linked_to-map, linked_to-others,
}
use yucca.Orchestrator.Schedules.Service.{
  Request, restart, handle, create_schedule, apply_schedule_update, remove_schedule,
}
use yucca.Orchestrator.Schedules.Outcomes.{
  new_row, new_schedule, create_schedule-Created, apply_schedule_update-Updated,
  remove_schedule-Removed, handle-ok,
}
use yucca.Orchestrator.Schedules.Sound.{has, UniqueIds, IsSound, linked_to-remove, has-delete}
use yucca.OrchestratorUi.Schedules.{
  merge, on_events, on_schedule_create, on_schedule_update, on_schedule_delete,
}

-- An operation that succeeds publishes events by which the shown list follows the stored one.
pub record IsFollowed {J : Type 0} (s s' : Scheduler J) : Type 0 where
  pub events : List Event
  pub published : s'.published ≡ s.published ++ events
  pub shown : on_events events (some (get_all s)) ≡ some (get_all s')

-- Links that agree on the rows give the same answers.
map-links :
    (rows : List ScheduleRow) (links links' : List RepositorySchedule)
    → ((id : ℕ) → has id rows ≡ true → linked_to id links' ≡ linked_to id links)
    → map (to_dto links') rows ≡ map (to_dto links) rows
map-links [] links links' k = refl
map-links (r ∷ rows) links links' k =
    let own : linked_to r.id links' ≡ linked_to r.id links =
      k r.id (ground (arith, ==_iff r.id r.id)) in
    let rest = map-links rows links links' (λ id h. k id (ground (arith, h))) in
    rw own (ap (λ t. to_dto links r ∷ t) rest)

has-ne : (a b : ℕ) (rows : List ScheduleRow) → has a rows ≡ true → has b rows ≡ false → a ≢ b
has-ne a b rows h k e = cc (ap (λ t. has t rows) e, h, k)

map-append :
    (f : ScheduleRow → Schedule) (rows : List ScheduleRow) (r : ScheduleRow)
    → map f (rows ++ r ∷ []) ≡ map f rows ++ f r ∷ []
map-append f [] r = refl
map-append f (x ∷ rows) r = ap (λ t. f x ∷ t) (map-append f rows r)

insert_by-first : (x : ℕ) (xs : List ℕ) → insert_by (position []) x xs ≡ x ∷ xs
insert_by-first x [] = refl
insert_by-first x (y ∷ ys) = ground arith

-- Without an ordering the repositories stay in the order in which they were linked.
sort_by-none : (xs : List ℕ) → sort_by (position []) xs ≡ xs
sort_by-none [] = refl
sort_by-none (x ∷ xs) = ap (insert_by (position []) x) (sort_by-none xs) ∙ insert_by-first x xs

map-delete :
    (id : ℕ) (links : List RepositorySchedule) (rows : List ScheduleRow)
    → select (λ entry. not (entry.id == id)) (map (to_dto links) rows)
      ≡ map (to_dto links) (delete_rows (λ r. r.id == id) rows)
map-delete id links [] = refl
map-delete id links (r ∷ rows) = elim (Bool-cases (r.id == id)) [
  | inl gone ↦ ground (arith, gone, map-delete id links rows)
  | inr kept ↦ ground (arith, kept, map-delete id links rows)
]

map-update-absent :
    (id : ℕ) (new : Schedule) (links links' : List RepositorySchedule)
    (f : ScheduleRow → ScheduleRow) (rows : List ScheduleRow)
    → has id rows ≡ false
    → ((other : ℕ) → other ≢ id → linked_to other links' ≡ linked_to other links)
    → map
        (λ entry. if entry.id == id then merge (whole new) entry else entry)
        (map (to_dto links) rows)
      ≡ map (to_dto links') (update_rows (λ r. r.id == id) f rows)
map-update-absent id new links links' f [] n k = refl
map-update-absent id new links links' f (r ∷ rows) n k =
    let other : (r.id == id) ≡ false = ground (arith, n) in
    let own = k r.id (nat_eq-ne r.id id other) in
    let rest = map-update-absent id new links links' f rows (ground (arith, n)) k in
    rw other (rw own (ap (λ t. to_dto links r ∷ t) rest))

map-update :
    (id : ℕ) (links links' : List RepositorySchedule) (f : ScheduleRow → ScheduleRow)
    (rows : List ScheduleRow) (row : ScheduleRow)
    → UniqueIds rows
    → find (λ r. r.id == id) rows ≡ some row
    → ((r : ScheduleRow) → (f r).id ≡ r.id)
    → ((other : ℕ) → other ≢ id → linked_to other links' ≡ linked_to other links)
    → map
        (λ entry. if entry.id == id then merge (whole (to_dto links' (f row))) entry else entry)
        (map (to_dto links) rows)
      ≡ map (to_dto links') (update_rows (λ r. r.id == id) f rows)
map-update id links links' f [] row u h i k = absurd (cc)
map-update id links links' f (r ∷ rows) row (new, u) h i k = elim (Bool-cases (r.id == id)) [
  | inl same ↦
      let e : r ≡ row = ground (arith, h, same) in
      let rest =
        map-update-absent id (to_dto links' (f row)) links links' f rows
          (ground (arith, new, same, ==_iff r.id id)) k in
      let head : merge (whole (to_dto links' (f row))) (to_dto links r) ≡ to_dto links' (f r) =
        cc (e, i r) in
      rw same (cc (head, rest))
  | inr n ↦
      let own = k r.id (nat_eq-ne r.id id n) in
      let rest = map-update id links links' f rows row u (ground (arith, h, n)) i k in
      rw n (rw own (ap (λ t. to_dto links r ∷ t) rest))
]

module _ {J : Type 0} (registry : Registry J) (parses : String → Bool) where
  -- A creation that succeeds is followed.
  create_schedule-IsFollowed :
      (id : ℕ) (dto : CreateDto) (x : Schedule) (s : Scheduler J)
      → IsSound s
      → (create_schedule registry parses id dto s).0 ≡ ok x
      → IsFollowed s (create_schedule registry parses id dto s).1
  unfolding on_schedule_create
  create_schedule-IsFollowed id dto x s o h =
      let c = create_schedule-Created registry parses id dto x s h in
      let links = s.tables.repository_schedules in
      let links' = links ++ map (link id) dto.repositories in
      let others = map-links s.schedules links links' (λ other k.
        linked_to-append other links (map (link id) dto.repositories)
        ∙ ap (λ t. linked_to other links ++ t)
            (linked_to-others id other dto.repositories (has-ne other id s.schedules k c.fresh))
        ∙ append_nil (linked_to other links)) in
      let own : linked_to id links' ≡ dto.repositories =
        linked_to-append id links (map (link id) dto.repositories)
        ∙ ap (λ t. t ++ linked_to id (map (link id) dto.repositories)) (o.linked id c.fresh)
        ∙ linked_to-map id dto.repositories in
      rw c.after (record {
        events = schedule_create (new_schedule id dto) ∷ [];
        published = refl;
        shown = ap some (
            sym (
              map-append (to_dto links') s.schedules (new_row id dto)
              ∙ ground (arith, others, own, sort_by-none dto.repositories)));
      })

  -- A removal that succeeds is followed.
  remove_schedule-IsFollowed :
      (id : ℕ) (s : Scheduler J)
      → (remove_schedule registry parses id s).0 ≡ ok tt
      → IsFollowed s (remove_schedule registry parses id s).1
  unfolding on_schedule_delete
  remove_schedule-IsFollowed id s h =
      let c = remove_schedule-Removed registry parses id s h in
      let links = s.tables.repository_schedules in
      let others =
        map-links (delete_rows (λ r. r.id == id) s.schedules) links
          (delete_rows (λ l. l.schedule == id) links)
          (λ other k.
            ground (arith, k, linked_to-remove id other links, has-delete id other s.schedules)) in
      rw c.after (record {
        events = schedule_delete id ∷ [];
        published = refl;
        shown = ap some (map-delete id links s.schedules ∙ sym others);
      })

  -- An update that succeeds is followed.
  apply_schedule_update-IsFollowed :
      (id : ℕ) (dto : UpdateDto) (x : Schedule) (s : Scheduler J)
      → UniqueIds s.schedules
      → (apply_schedule_update registry parses id dto s).0 ≡ ok x
      → IsFollowed s (apply_schedule_update registry parses id dto s).1
  unfolding on_schedule_update
  apply_schedule_update-IsFollowed id dto x s o h =
      let u = apply_schedule_update-Updated registry parses id dto x s h in
      let links = s.tables.repository_schedules in
      let links' = relinked id dto.repositories links in
      rw u.after (record {
        events = schedule_update id (whole (to_dto links' (set_row dto u.row))) ∷ [];
        published = refl;
        shown = ap some (
            map-update id links links' (set_row dto) s.schedules u.row o u.found (λ r. refl)
              (λ other n. relinked-others id other dto.repositories links n));
      })

  -- After each request on schedules that succeeds, the list that the user interface had loaded before and
  -- that it updates by the events published since is the list that the agent would now answer, if the keys
  -- of the agent's tables held before.
  pub handle-IsFollowed :
      (r : Request) (s : Scheduler J)
      → r ≢ restart
      → IsSound s
      → (handle registry parses r s).0 ≡ ok tt
      → IsFollowed s (handle registry parses r s).1
  handle-IsFollowed r s n o h =
      handle-ok registry parses (IsFollowed s) s
        (λ id dto x good. create_schedule-IsFollowed id dto x s o good)
        (λ id dto x good. apply_schedule_update-IsFollowed id dto x s o.ids good)
        (λ id good. remove_schedule-IsFollowed id s good) r n h
