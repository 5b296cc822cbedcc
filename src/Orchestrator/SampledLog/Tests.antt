-- ===== src/Orchestrator/SampledLog/Tests.antt =====
-- The bound on a log at concrete events, whose percentages are whole numbers.
use yucca.Common.{
  ◌==◌, ℕ, ◌+◌, ◌*◌, ◌≤◌, ◌≡◌, refl, Bool, true, some, List, [], ◌∷◌, ltb, arith, All,
}
use yucca.Orchestrator.SampledLog.{
  Timed, Sampler, status, write, written, IsSlow, Ordered, written-bound,
}

abbrev unfinished : ℕ → Bool
unfinished p = ltb p 100

abbrev near : ℕ → ℕ → Bool
near p q = p == q

abbrev alike : ℕ → Bool
alike p = p == 3

abbrev ticks : List (Timed ℕ)
ticks =
    record { now = 5000; writable = true; event = status (some 3) }
    ∷ record { now = 5400; writable = true; event = status (some 3) }
    ∷ record { now = 6100; writable = true; event = status (some 3) }
    ∷ []

abbrev fresh : Sampler ℕ
fresh = record { last_at = 0; last_percent = 3 }

ticks-Ordered : Ordered 0 unfinished near 0 ticks
ticks-Ordered = (omega arith, (omega arith, (omega arith, tt)))

ticks-IsSlow : All (IsSlow 0 unfinished near alike) ticks
ticks-IsSlow =
    ((some 3, refl, refl, refl), ((some 3, refl, refl, refl), ((some 3, refl, refl, refl), tt)))

alike-near : (p q : ℕ) → alike p ≡ true → alike q ≡ true → near p q ≡ true
alike-near p q h k = ground (arith, h, k)

written-bound_example : 0 + 1000 * written 0 unfinished near ticks fresh ≤ 6100
written-bound_example =
    written-bound 0 unfinished near alike alike-near ticks 0 fresh refl (omega arith) ticks-Ordered
      ticks-IsSlow

-- the second event is left out
two_of_three : ◌≡◌ {A = ℕ} (written 0 unfinished near ticks fresh) 2
unfolding written write
two_of_three = refl
