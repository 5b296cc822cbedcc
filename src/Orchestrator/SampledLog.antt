-- ===== src/Orchestrator/SampledLog.antt =====
-- packages/yucca-sdk/orchestration-api/src/utils/restic.ts, createSampledLogWriter: which of restic's events
-- are written to a log. The percentages are floating-point numbers, so they are a type `P`, and the tests
-- `percent < 1` and `|percent - last| < 0.01` are arguments.
-- Times are in milliseconds.
mod Tests
use yucca.Common.{
  ℕ, suc, ◌+◌, ◌*◌, ◌-◌, ◌≤◌, ◌≡◌, refl, inl, inr, Bool, true, false, not, ◌&&◌, Option, none, some,
  List, [], ◌∷◌, ltb, if◌then◌else◌, All, arith, Bool-cases,
}

pub data Event (P : Type 0) : Type 0 where
  status : (percent_done : Option P) → Event P
  other : Event P

pub record Sampler (P : Type 0) : Type 0 where
  pub last_at : ℕ
  pub last_percent : P

-- an event, when it comes, and whether the log is writable then
pub record Timed (P : Type 0) : Type 0 where
  pub now : ℕ
  pub writable : Bool
  pub event : Event P

module _ {P : Type 0} (zero_percent : P) (unfinished : P → Bool) (near : P → P → Bool) where
  abbrev pub percent : Option P → P
  percent none = zero_percent
  percent (some p) = p

  -- the events that are left out
  abbrev pub is_skipped : ℕ → P → Sampler P → Bool
  is_skipped now p s = unfinished p && (ltb (now - s.last_at) 1000 && near p s.last_percent)

  -- whether an event is written, and the state after it
  unfoldable pub write : Timed P → Sampler P → Bool × Sampler P
  write e s = if not e.writable then (false, s) else elim e.event [
    | other ↦ (true, s)
    | status p ↦
        if is_skipped e.now (percent p) s
        then (false, s)
        else (true, record { last_at = e.now; last_percent = percent p })
  ]

  -- how many of the events are written
  unfoldable pub written : List (Timed P) → Sampler P → ℕ
  written [] s = 0
  written (e ∷ es) s =
      let (w, s') = write e s in let rest = written es s' in if w then suc rest else rest

  -- the time of the last event
  abbrev pub last_time : ℕ → List (Timed P) → ℕ
  last_time t [] = t
  last_time t (e ∷ es) = last_time e.now es

  -- the times do not go back
  abbrev pub Ordered : ℕ → List (Timed P) → Type 0
  Ordered t [] = Unit {0}
  Ordered t (e ∷ es) = (t ≤ e.now) × Ordered e.now es

  -- a status event of an unfinished run, with one of the percentages `alike`
  abbrev pub IsSlow : (P → Bool) → Timed P → Type 0
  IsSlow alike e =
      (p : Option P) × (e.event ≡ status p)
      × (unfinished (percent p) ≡ true)
      × (alike (percent p) ≡ true)

  -- While the percentages of an unfinished run, the last written one among them, are pairwise less than a
  -- percent apart, its status events fill a log by at most one in a second: a thousand for each event that is
  -- written, from the time of the last one before, is at most the time of the last event. The times do not go
  -- back.
  pub written-bound :
      (alike : P → Bool)
      → ((p q : P) → alike p ≡ true → alike q ≡ true → near p q ≡ true)
      → (es : List (Timed P)) (t : ℕ) (s : Sampler P) → alike s.last_percent ≡ true
      → s.last_at ≤ t
      → Ordered t es
      → All (IsSlow alike) es
      → s.last_at + 1000 * written es s ≤ last_time t es
  unfolding written write
  written-bound alike close [] t s last le o slow = ground (arith, le)
  written-bound alike close (e ∷ es) t s last le (before, o) ((p, event, on, own), slow) =
      let skip = λ (quiet : write e s ≡ (false, s)).
        let rest = written-bound alike close es e.now s last (omega (arith, le, before)) o slow in
        let counted : written (e ∷ es) s ≡ written es s = ground (arith, quiet) in
        let bound : s.last_at + 1000 * written (e ∷ es) s ≤ last_time e.now es =
          omega (arith, counted, rest) in
        bound in
      elim (Bool-cases e.writable) [
        | inr shut ↦ skip (ground (arith, shut))
        | inl fine ↦ elim (Bool-cases (ltb (e.now - s.last_at) 1000)) [
          | inl soon ↦
              let near_last : near (percent p) s.last_percent ≡ true =
                close (percent p) s.last_percent own last in
              skip (ground (arith, fine, event, on, near_last, soon))
          | inr late ↦
              let s' : Sampler P = record { last_at = e.now; last_percent = percent p } in
              let rest = written-bound alike close es e.now s' own (ground arith) o slow in
              let wrote : write e s ≡ (true, s') = ground (arith, fine, event, late) in
              let counted : written (e ∷ es) s ≡ suc (written es s') = ground (arith, wrote) in
              ground (arith, counted, late, rest, le, before)
        ]
      ]
