-- ===== src/Database/Rows.antt =====
-- Laws of the queries: rows found, changed and removed.
use mathlib.Core.List.{Memᴰ}
use yucca.Common.{
  ◌≡◌, ◌≢◌, inl, inr, Bool, true, false, some, List, [], ◌∷◌, ◌++◌, find, any, All, arith,
  Bool-cases,
}
use yucca.Database.{update_rows, delete_rows}

module _ {A : Type 0} where
  pub find-mem :
      (p : A → Bool) (xs : List A) {a : A} → find p xs ≡ some a → Memᴰ a xs × (p a ≡ true)
  find-mem p [] e = cc
  find-mem p (x ∷ xs) {a} e = elim (Bool-cases (p x)) [
    | inl hit ↦ let same : a ≡ x = ground arith in (Memᴰ.head same, rw same hit)
    | inr miss ↦ let (m, h) = find-mem p xs {a = a} (ground arith) in (Memᴰ.tail m, h)
  ]

  pub All-mem {κ} : (P : A → Type κ) (xs : List A) {a : A} → All P xs → Memᴰ a xs → P a
  All-mem P [] h m = elim m [ ]
  All-mem P (x ∷ xs) (h, hs) (Memᴰ.head e) = rw e h
  All-mem P (x ∷ xs) (h, hs) (Memᴰ.tail m) = All-mem P xs hs m

  pub All-append {κ} : (P : A → Type κ) (xs ys : List A) → All P xs → All P ys → All P (xs ++ ys)
  All-append P [] ys h k = k
  All-append P (x ∷ xs) ys (h, hs) k = (h, All-append P xs ys hs k)

  -- no row passes a test
  pub any-false : (p : A → Bool) (xs : List A) → any p xs ≡ false → All (λ x. p x ≡ false) xs
  any-false p [] h = tt
  any-false p (x ∷ xs) h = (ground arith, any-false p xs (ground arith))

  pub All-delete_rows {κ} :
      (P : A → Type κ) (p : A → Bool) (xs : List A) → All P xs → All P (delete_rows p xs)
  All-delete_rows P p [] h = tt
  All-delete_rows P p (x ∷ xs) (h, hs) = elim (Bool-cases (p x)) [
    | inl gone ↦ rw gone (All-delete_rows P p xs hs)
    | inr kept ↦ rw kept (h, All-delete_rows P p xs hs)
  ]

  -- a row that the condition misses survives a deletion and an update
  pub mem-delete_rows :
      (p : A → Bool) (xs : List A) {a : A} → p a ≡ false → Memᴰ a xs → Memᴰ a (delete_rows p xs)
  mem-delete_rows p [] h m = elim m [ ]
  mem-delete_rows p (x ∷ xs) {a} h (Memᴰ.head e) =
      let kept : p x ≡ false = rw e at h in rw kept (Memᴰ.head e)
  mem-delete_rows p (x ∷ xs) {a} h (Memᴰ.tail m) = elim (Bool-cases (p x)) [
    | inl gone ↦ rw gone (mem-delete_rows p xs h m)
    | inr kept ↦ rw kept (Memᴰ.tail (mem-delete_rows p xs h m))
  ]

  pub mem-update_rows :
      (p : A → Bool) (f : A → A) (xs : List A) {a : A}
      → p a ≡ false
      → Memᴰ a xs
      → Memᴰ a (update_rows p f xs)
  mem-update_rows p f [] h m = elim m [ ]
  mem-update_rows p f (x ∷ xs) {a} h (Memᴰ.head e) =
      let kept : p x ≡ false = rw e at h in rw kept (Memᴰ.head e)
  mem-update_rows p f (x ∷ xs) h (Memᴰ.tail m) = Memᴰ.tail (mem-update_rows p f xs h m)

  pub mem-append_left : (xs ys : List A) {a : A} → Memᴰ a xs → Memᴰ a (xs ++ ys)
  mem-append_left [] ys m = elim m [ ]
  mem-append_left (x ∷ xs) ys (Memᴰ.head e) = Memᴰ.head e
  mem-append_left (x ∷ xs) ys (Memᴰ.tail m) = Memᴰ.tail (mem-append_left xs ys m)

  -- rows that pairwise differ in a key
  abbrev pub Distinct : {K : Type 0} → (A → K) → List A → Type 0
  Distinct key [] = Unit {0}
  Distinct key (x ∷ xs) = All (λ y. key y ≢ key x) xs × Distinct key xs

  pub Distinct-append :
      {K : Type 0} (key : A → K) (xs : List A) (y : A)
      → Distinct key xs
      → All (λ x. key x ≢ key y) xs
      → Distinct key (xs ++ y ∷ [])
  Distinct-append key [] y d h = (tt, tt)
  Distinct-append key (x ∷ xs) y (a, d) (n, h) = (
    All-append (λ z. key z ≢ key x) xs (y ∷ []) a ((λ e. n (cc)), tt),
    Distinct-append key xs y d h,
  )

  pub Distinct-delete_rows :
      {K : Type 0} (key : A → K) (p : A → Bool) (xs : List A)
      → Distinct key xs
      → Distinct key (delete_rows p xs)
  Distinct-delete_rows key p [] d = tt
  Distinct-delete_rows key p (x ∷ xs) (a, d) = elim (Bool-cases (p x)) [
    | inl gone ↦ rw gone (Distinct-delete_rows key p xs d)
    | inr kept ↦
        rw kept (All-delete_rows (λ y. key y ≢ key x) p xs a, Distinct-delete_rows key p xs d)
  ]

  All-update_rows {κ} :
      (P : A → Type κ) (p : A → Bool) (f : A → A) (xs : List A)
      → ((x : A) → P x → P (f x))
      → All P xs
      → All P (update_rows p f xs)
  All-update_rows P p f [] keep h = tt
  All-update_rows P p f (x ∷ xs) keep (h, hs) = elim (Bool-cases (p x)) [
    | inl hit ↦ rw hit (keep x h, All-update_rows P p f xs keep hs)
    | inr miss ↦ rw miss (h, All-update_rows P p f xs keep hs)
  ]

  -- an update that leaves the key alone
  pub Distinct-update_rows :
      {K : Type 0} (key : A → K) (p : A → Bool) (f : A → A) (xs : List A)
      → ((x : A) → key (f x) ≡ key x)
      → Distinct key xs
      → Distinct key (update_rows p f xs)
  Distinct-update_rows key p f [] same d = tt
  Distinct-update_rows key p f (x ∷ xs) same (a, d) = elim (Bool-cases (p x)) [
    | inl hit ↦
        rw (hit, same x)
          (
            All-update_rows (λ y. key y ≢ key x) p f xs (λ y n e. n (cc (same y))) a,
            Distinct-update_rows key p f xs same d,
          )
    | inr miss ↦ rw miss (
      All-update_rows (λ y. key y ≢ key x) p f xs (λ y n e. n (cc (same y))) a,
      Distinct-update_rows key p f xs same d,
    )
  ]
