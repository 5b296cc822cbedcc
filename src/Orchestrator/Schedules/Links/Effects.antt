-- ===== src/Orchestrator/Schedules/Links/Effects.antt =====
-- The state that the queries on links leave (services/schedule.service.ts, applyScheduleUpdate).
use yucca.Common.{
  ℕ, ◌==◌, ==_iff, ◌≡◌, refl, ap, sym, ◌∙◌, inl, inr, Bool, true, false, ◌&&◌, ◌||◌, not, Option,
  none, some, List, [], ◌∷◌, ◌++◌, any, map, arith, Bool-cases, append_nil, append_one,
}
use yucca.Common.Monad.{ok, err, Result-cases}
use yucca.Common.Sets.{contains, difference, dedupe, Unique, nat_Eq}
use yucca.Common.Sets.Members.{contains-difference, Unique-difference, contains-append}
use yucca.Database.{constraint, delete_rows}
use yucca.Orchestrator.{RepositorySchedule}
use yucca.Orchestrator.Schedules.{Scheduler, linked_to, is_link}
use yucca.Orchestrator.Schedules.Rows.{
  add_repository, remove_repository, add_repositories, remove_repositories, set_links,
}
use yucca.Orchestrator.Schedules.Links.{link, drop_links, relinked, New, linked_to-append}

pub is_link-contains :
    (id r : ℕ) (links : List RepositorySchedule)
    → any (is_link id r) links ≡ contains (linked_to id links) r
is_link-contains id r [] = refl
is_link-contains id r (l ∷ links) = ground (arith, is_link-contains id r links)

module _ {J : Type 0} where
  abbrev pub with_links : List RepositorySchedule → Scheduler J → Scheduler J
  with_links links s = record s { tables = record s.tables { repository_schedules = links } }

  -- what stops a link
  abbrev pub blocked : ℕ → ℕ → Scheduler J → Bool
  blocked id r s =
      any (is_link id r) s.tables.repository_schedules
      || not (any (λ x. x.id == r) s.tables.repositories && any (λ x. x.id == id) s.schedules)

  add_repository-linked :
      (id r : ℕ) (s : Scheduler J)
      → blocked id r s ≡ false
      → add_repository id r s
        ≡ (ok tt, with_links (s.tables.repository_schedules ++ link id r ∷ []) s)
  unfolding add_repository
  add_repository-linked id r s h = ground (arith, h)

  add_repository-blocked :
      (id r : ℕ) (s : Scheduler J)
      → blocked id r s ≡ true
      → add_repository id r s ≡ (err constraint, s)
  unfolding add_repository
  add_repository-blocked id r s h = ground (arith, h)

  pub add_repositories-state :
      (id : ℕ) (rs : List ℕ) (s : Scheduler J)
      → (add_repositories id rs s).0 ≡ ok tt
      → (add_repositories id rs s).1
        ≡ with_links (s.tables.repository_schedules ++ map (link id) rs) s
  unfolding add_repositories
  add_repositories-state id [] s h =
      ap (λ t. with_links t s) (sym (append_nil s.tables.repository_schedules))
  add_repositories-state id (r ∷ rs) s h = elim (Bool-cases (blocked id r s)) [
    | inl b ↦ absurd (ground (arith, h, add_repository-blocked id r s b))
    | inr b ↦
        let s' = with_links (s.tables.repository_schedules ++ link id r ∷ []) s in
        let one = add_repository-linked id r s b in
        let step : add_repositories id (r ∷ rs) s ≡ add_repositories id rs s' =
          ground (arith, one) in
        let rest = add_repositories-state id rs s' (sym (ap (λ t. t.0) step) ∙ h) in
        ap (λ t. t.1) step
        ∙ rest
        ∙ ap (λ t. with_links t s)
            (append_one s.tables.repository_schedules (map (link id) rs) (link id r))
  ]

  -- every repository is there, and so is the schedule
  abbrev pub Known : ℕ → List ℕ → Scheduler J → Type 0
  Known id rs s =
      (any (λ x. x.id == id) s.schedules ≡ true)
      × ((p : ℕ) → contains rs p ≡ true → any (λ x. x.id == p) s.tables.repositories ≡ true)

  add_repositories-done :
      (id : ℕ) (rs : List ℕ) (s : Scheduler J)
      → Known id rs s
      → Unique rs
      → New rs (linked_to id s.tables.repository_schedules)
      → (add_repositories id rs s).0 ≡ ok tt
  unfolding add_repositories
  add_repositories-done id [] s k u n = refl
  add_repositories-done id (r ∷ rs) s (sk, rk) (new, u) n =
      let links = s.tables.repository_schedules in
      let free : blocked id r s ≡ false =
        ground (arith, is_link-contains id r links, n r, rk r, sk, ==_iff r r) in
      let rest =
        add_repositories-done id rs (with_links (links ++ link id r ∷ []) s)
          (sk, (λ p h. rk p (ground (arith, h)))) u
          (λ p h. ground (
            arith,
            h,
            new,
            n p,
            linked_to-append id links (link id r ∷ []),
            contains-append (linked_to id links) (r ∷ []) p,
            ==_iff r p,
          )) in
      ground (arith, add_repository-linked id r s free, rest)

  remove_repositories-state :
      (id : ℕ) (rs : List ℕ) (s : Scheduler J)
      → remove_repositories id rs s
        ≡ (ok tt, with_links (drop_links id rs s.tables.repository_schedules) s)
  unfolding remove_repositories remove_repository
  remove_repositories-state id [] s = refl
  remove_repositories-state id (r ∷ rs) s =
      remove_repositories-state id rs
        (with_links (delete_rows (is_link id r) s.tables.repository_schedules) s)

  pub set_links-state :
      (id : ℕ) (requested : Option (List ℕ)) (s : Scheduler J)
      → (set_links id requested s).0 ≡ ok tt
      → (set_links id requested s).1
        ≡ with_links (relinked id requested s.tables.repository_schedules) s
  unfolding set_links
  set_links-state id none s h = refl
  set_links-state id (some requested) s h =
      let old = linked_to id s.tables.repository_schedules in
      let new = difference requested old in
      let gone = difference (dedupe old) requested in
      elim (Result-cases (add_repositories id new s).0) [
        | inr (e, bad) ↦ absurd (ground (arith, h, bad))
        | inl (u, good) ↦ ground (
          arith,
          add_repositories-state id new s good,
          remove_repositories-state id gone (add_repositories id new s).1,
        )
      ]

  pub set_links-done :
      (id : ℕ) (requested : List ℕ) (s : Scheduler J)
      → Known id requested s
      → Unique requested
      → (set_links id (some requested) s).0 ≡ ok tt
  unfolding set_links
  set_links-done id requested s (sk, rk) u =
      let old = linked_to id s.tables.repository_schedules in
      let new = difference requested old in
      let gone = difference (dedupe old) requested in
      let added =
        add_repositories-done id new s
          (sk, (λ p h. rk p (ground (arith, h, contains-difference requested old p))))
          (Unique-difference requested old u)
          (λ p h. ground (arith, h, contains-difference requested old p)) in
      ground (arith, added, remove_repositories-state id gone (add_repositories id new s).1)
