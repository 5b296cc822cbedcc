-- ===== src/Orchestrator/Paths/Sync.antt =====
-- The update of a repository's paths makes them the requested ones.
use text.Mathlib.Text.{◌==◌ as str_eq}
use text.Mathlib.TextEquality.{eq_iff}
use yucca.Common.{
  ℕ, ◌==◌, ◌≡◌, refl, ◌∙◌, ◌≢◌, Bool, true, false, ◌&&◌, ◌||◌, not, List, [], ◌∷◌, ◌++◌, any, arith,
  String,
}
use yucca.Common.Monad.{Result, ok}
use yucca.Common.Sets.{contains, difference, dedupe, Unique, string_Eq}
use yucca.Common.Sets.Members.{
  contains-difference, contains-dedupe_onto, Unique-difference, Unique-dedupe_onto,
}
use yucca.Database.{Error, delete_rows}
use yucca.Orchestrator.{Tables, PathRow}
use yucca.Orchestrator.Paths.{
  is_path, paths_in, create_path, delete_path, create_paths, delete_paths, sync_paths,
}

contains-paths_in :
    (id : ℕ) (p : String) (rows : List PathRow)
    → any (is_path id p) rows ≡ contains (paths_in id rows) p
contains-paths_in id p [] = refl
contains-paths_in id p (x ∷ rows) = ground (arith, contains-paths_in id p rows)

contains-append :
    (id : ℕ) (q p : String) (rows : List PathRow)
    → contains (paths_in id (rows ++ record { id = id; path = q } ∷ [])) p
      ≡ (contains (paths_in id rows) p || str_eq q p)
contains-append id q p [] = ground arith
contains-append id q p (x ∷ rows) = ground (arith, contains-append id q p rows)

append-others :
    (id other : ℕ) (q : String) (rows : List PathRow)
    → other ≢ id
    → paths_in other (rows ++ record { id = id; path = q } ∷ []) ≡ paths_in other rows
append-others id other q [] n = ground arith
append-others id other q (x ∷ rows) n = ground (arith, append-others id other q rows n)

contains-delete :
    (id : ℕ) (q p : String) (rows : List PathRow)
    → contains (paths_in id (delete_rows (is_path id q) rows)) p
      ≡ (contains (paths_in id rows) p && not (str_eq q p))
contains-delete id q p [] = refl
contains-delete id q p (x ∷ rows) =
    ground (arith, contains-delete id q p rows, eq_iff x.path q, eq_iff x.path p, eq_iff q p)

delete-others :
    (id other : ℕ) (q : String) (rows : List PathRow)
    → other ≢ id
    → paths_in other (delete_rows (is_path id q) rows) ≡ paths_in other rows
delete-others id other q [] n = refl
delete-others id other q (x ∷ rows) n = ground (arith, delete-others id other q rows n)

-- What a run of queries on paths does.
record Changes (id : ℕ) (t : Tables) (r : Result Error (Unit {0}) × Tables) (after : String → Bool)
    : Type 0 where
  done : r.0 ≡ ok tt
  own : (p : String) → contains (paths_in id r.1.paths) p ≡ after p
  others : (other : ℕ) → other ≢ id → paths_in other r.1.paths ≡ paths_in other t.paths
  rest : record r.1 { paths = t.paths } ≡ t

abbrev removed : ℕ → String → Tables → Tables
removed id q t = record t { paths = delete_rows (is_path id q) t.paths }

abbrev added : ℕ → String → Tables → Tables
added id q t = record t { paths = t.paths ++ record { id = id; path = q } ∷ [] }

delete_paths-Changes :
    (id : ℕ) (ps : List String) (t : Tables)
    → Changes id t
        (delete_paths id ps t)
        (λ p. contains (paths_in id t.paths) p && not (contains ps p))
unfolding delete_paths delete_path
delete_paths-Changes id [] t = record {
  done = refl;
  own = λ p. ground arith;
  others = λ other n. refl;
  rest = refl;
}
delete_paths-Changes id (q ∷ ps) t =
    let c = delete_paths-Changes id ps (removed id q t) in
    record {
      done = c.done;
      own = λ p. ground (arith, c.own p, contains-delete id q p t.paths);
      others = λ other n. c.others other n ∙ delete-others id other q t.paths n;
      rest = ground (arith, c.rest);
    }

-- none of them there yet
abbrev New : ℕ → List String → Tables → Type 0
New id ps t = (p : String) → contains ps p ≡ true → contains (paths_in id t.paths) p ≡ false

create_paths-Changes :
    (id : ℕ) (ps : List String) (t : Tables)
    → any (λ r. r.id == id) t.repositories ≡ true
    → Unique ps
    → New id ps t
    → Changes id t (create_paths id ps t) (λ p. contains (paths_in id t.paths) p || contains ps p)
unfolding create_paths create_path
create_paths-Changes id [] t k u n = record {
  done = refl;
  own = λ p. ground arith;
  others = λ other n. refl;
  rest = refl;
}
create_paths-Changes id (q ∷ ps) t k (a, u) n =
    let first : contains (paths_in id t.paths) q ≡ false = n q (ground (arith, eq_iff q q)) in
    let free : any (is_path id q) t.paths ≡ false = contains-paths_in id q t.paths ∙ first in
    let c =
      create_paths-Changes id ps (added id q t) k u
        (λ p h. ground (arith, contains-append id q p t.paths, n p, eq_iff q p, a, h)) in
    record {
      done = ground (arith, c.done);
      own = λ p. ground (arith, c.own p, contains-append id q p t.paths);
      others = λ other m. ground (arith, c.others other m, append-others id other q t.paths m);
      rest = ground (arith, c.rest);
    }

-- The update of the paths of a repository that exists succeeds, and leaves it with exactly the requested
-- paths, whatever it had and however often they are asked for. The paths of the others and all other
-- tables stay as they are.
pub sync_paths-requested :
    (id : ℕ) (requested : List String) (t : Tables)
    → any (λ r. r.id == id) t.repositories ≡ true
    → ((sync_paths id requested t).0 ≡ ok tt)
      × ((p : String)
          → contains (paths_in id (sync_paths id requested t).1.paths) p ≡ contains requested p)
      × ((other : ℕ)
          → other ≢ id
          → paths_in other (sync_paths id requested t).1.paths ≡ paths_in other t.paths)
      × (record (sync_paths id requested t).1 { paths = t.paths } ≡ t)
unfolding sync_paths
sync_paths-requested id requested t k =
    let current : List String = paths_in id t.paths in
    let gone : List String = difference (dedupe current) (dedupe requested) in
    let new : List String = difference (dedupe requested) (dedupe current) in
    let in_gone = λ (p : String). contains-difference (dedupe current) (dedupe requested) p in
    let in_new = λ (p : String). contains-difference (dedupe requested) (dedupe current) p in
    let in_current = λ (p : String). contains-dedupe_onto [] current p in
    let in_requested = λ (p : String). contains-dedupe_onto [] requested p in
    let d = delete_paths-Changes id gone t in
    let middle : Tables = (delete_paths id gone t).1 in
    let known : any (λ r. r.id == id) middle.repositories ≡ true = ground (arith, d.rest, k) in
    let c =
      create_paths-Changes id new middle known
        (Unique-difference (dedupe requested) (dedupe current) (Unique-dedupe_onto [] requested))
        (λ p h. ground (arith, h, d.own p, in_new p, in_gone p, in_current p, in_requested p)) in
    let step : sync_paths id requested t ≡ create_paths id new middle = ground (arith, d.done) in
    rw step (
      c.done,
      (λ p. ground (arith, c.own p, d.own p, in_new p, in_gone p, in_current p, in_requested p)),
      (λ other n. c.others other n ∙ d.others other n),
      ground (arith, c.rest, d.rest),
    )
