-- ===== src/Prelude/Lists.antt =====
-- Lists searched by Boolean tests, as the array methods of the program do.
use Prim.Native.Nat.{ℕ, zero, suc, ◌+◌}
use mathlib.Core.Path.{◌≡◌, refl}
use mathlib.Core.Logic.{◌↔◌, ◌⊎◌, inl, inr}
use mathlib.Core.Bool.{Bool, true, false, ◌&&◌, ◌||◌}
use mathlib.Core.Option.{Option, none, some}
use mathlib.Core.List.{List, [], ◌∷◌, ◌++◌, map, Memᴰ, Permᴰ}
use native.Mathlib.Omega.{arith}
use keylore.Prelude.Tests.{if◌then◌else◌, Bool-cases, leb}

module _ {ℓ} {A : Type ℓ} where
  abbrev pub length : List A → ℕ
  length [] = 0
  length (x ∷ xs) = suc (length xs)

  pub length-append : (xs ys : List A) → length (xs ++ ys) ≡ length xs + length ys
  length-append [] ys = omega arith
  length-append (x ∷ xs) ys = omega (arith, length-append xs ys)

  abbrev pub take : ℕ → List A → List A
  take zero xs = []
  take (suc n) [] = []
  take (suc n) (x ∷ xs) = x ∷ take n xs

  -- Array.prototype.some
  abbrev pub any : (A → Bool) → List A → Bool
  any p [] = false
  any p (x ∷ xs) = p x || any p xs

  -- Array.prototype.find
  abbrev pub find : (A → Bool) → List A → Option A
  find p [] = none
  find p (x ∷ xs) = if p x then some x else find p xs

  -- Array.prototype.filter
  abbrev pub filter : (A → Bool) → List A → List A
  filter p [] = []
  filter p (x ∷ xs) = if p x then x ∷ filter p xs else filter p xs

  -- How many items pass a test.
  abbrev pub count_if : (A → Bool) → List A → ℕ
  count_if p [] = 0
  count_if p (x ∷ xs) = (if p x then 1 else 0) + count_if p xs

  pub count_if-append :
      (p : A → Bool) (xs ys : List A) → count_if p (xs ++ ys) ≡ count_if p xs + count_if p ys
  count_if-append p [] ys = omega arith
  count_if-append p (x ∷ xs) ys = omega (arith, count_if-append p xs ys)

  abbrev pub All {κ} : (A → Type κ) → List A → Type κ
  All P [] = Unit
  All P (x ∷ xs) = P x × All P xs

  abbrev pub Any : (A → Type 0) → List A → Type 0
  Any P [] = ⊥
  Any P (x ∷ xs) = P x ⊎ Any P xs

  pub All-append {κ} : (P : A → Type κ) (xs ys : List A) → All P xs → All P ys → All P (xs ++ ys)
  All-append P [] ys h k = k
  All-append P (x ∷ xs) ys (p, h) k = (p, All-append P xs ys h k)

  pub All-mem {κ} : (P : A → Type κ) (xs : List A) {x : A} → All P xs → Memᴰ x xs → P x
  All-mem P [] h m = elim m [ ]
  All-mem P (y ∷ xs) (p, h) (Memᴰ.head e) = rw e p
  All-mem P (y ∷ xs) (p, h) (Memᴰ.tail m) = All-mem P xs h m

  pub All-tabulate {κ} : (P : A → Type κ) (xs : List A) → ((x : A) → Memᴰ x xs → P x) → All P xs
  All-tabulate P [] k = tt
  All-tabulate P (x ∷ xs) k = (k x (Memᴰ.head refl), All-tabulate P xs (λ y m. k y (Memᴰ.tail m)))

  -- An item of one list is in another, if that holds of its head and of the rest.
  pub Mem-cons :
      (xs ys : List A) {x y a : A}
      → Memᴰ a (x ∷ xs)
      → (Memᴰ a xs → Memᴰ a ys)
      → (a ≡ x → Memᴰ a (y ∷ ys))
      → Memᴰ a (y ∷ ys)
  Mem-cons xs ys (Memᴰ.head same) k h = h same
  Mem-cons xs ys (Memᴰ.tail m) k h = Memᴰ.tail (k m)

  pub find-eq-some :
      (p : A → Bool) (xs : List A) {x : A} → find p xs ≡ some x → Memᴰ x xs × (p x ≡ true)
  find-eq-some p [] h = cc
  find-eq-some p (y ∷ xs) {x} h = elim (Bool-cases (p y)) [
    | inl e ↦ let same : x ≡ y = (ground arith) in (Memᴰ.head same, rw same e)
    | inr e ↦
        let found : find p xs ≡ some x = (ground arith) in
        let (m, t) = find-eq-some p xs found in (Memᴰ.tail m, t)
  ]

  pub find-eq-none_iff : (p : A → Bool) (xs : List A) → (find p xs ≡ none) ↔ (any p xs ≡ false)
  find-eq-none_iff p [] = (λ h. refl, λ h. refl)
  find-eq-none_iff p (x ∷ xs) = ground (arith, find-eq-none_iff p xs)

  pub any-of_mem : (p : A → Bool) (xs : List A) {x : A} → Memᴰ x xs → p x ≡ true → any p xs ≡ true
  any-of_mem p [] m h = elim m [ ]
  any-of_mem p (y ∷ xs) (Memᴰ.head e) h = rw (← e, h) refl
  any-of_mem p (y ∷ xs) (Memᴰ.tail m) h = ground (arith, any-of_mem p xs m h)

  pub mem-of_any :
      (p : A → Bool) (xs : List A) → any p xs ≡ true → (x : A) × Memᴰ x xs × (p x ≡ true)
  mem-of_any p [] h = cc
  mem-of_any p (y ∷ xs) h = elim (Bool-cases (p y)) [
    | inl e ↦ (y, Memᴰ.head refl, e)
    | inr e ↦
        let later : any p xs ≡ true = (ground arith) in
        let (x, m, t) = mem-of_any p xs later in (x, Memᴰ.tail m, t)
  ]

  pub any-false_of_mem :
      (p : A → Bool) (xs : List A) {x : A} → any p xs ≡ false → Memᴰ x xs → p x ≡ false
  any-false_of_mem p [] h m = elim m [ ]
  any-false_of_mem p (y ∷ xs) h (Memᴰ.head e) = rw e (ground arith)
  any-false_of_mem p (y ∷ xs) h (Memᴰ.tail m) = any-false_of_mem p xs (ground arith) m

  mem-cons_map :
      (p : A → Bool) {xs ys : List A} {x y : A}
      → p y ≡ true
      → (Memᴰ x xs → Memᴰ x ys × (p x ≡ true))
      → Memᴰ x (y ∷ xs)
      → Memᴰ x (y ∷ ys) × (p x ≡ true)
  mem-cons_map p e ih (Memᴰ.head same) = (Memᴰ.head same, rw same e)
  mem-cons_map p e ih (Memᴰ.tail m) = let (k, t) = ih m in (Memᴰ.tail k, t)

  pub mem-of_filter :
      (p : A → Bool) (xs : List A) {x : A} → Memᴰ x (filter p xs) → Memᴰ x xs × (p x ≡ true)
  mem-of_filter p [] m = elim m [ ]
  mem-of_filter p (y ∷ xs) {x} m = elim (Bool-cases (p y)) [
    | inl e ↦ mem-cons_map p e (mem-of_filter p xs) (rw e at m)
    | inr e ↦ let (k, t) = mem-of_filter p xs (rw e at m) in (Memᴰ.tail k, t)
  ]

  pub mem-filter :
      (p : A → Bool) (xs : List A) {x : A} → Memᴰ x xs → p x ≡ true → Memᴰ x (filter p xs)
  mem-filter p [] m h = elim m [ ]
  mem-filter p (y ∷ xs) (Memᴰ.head e) h = rw (← e, h) (Memᴰ.head refl)
  mem-filter p (y ∷ xs) (Memᴰ.tail m) h = elim (Bool-cases (p y)) [
    | inl e ↦ rw e (Memᴰ.tail (mem-filter p xs m h))
    | inr e ↦ rw e (mem-filter p xs m h)
  ]

  pub any-perm : (p : A → Bool) {xs ys : List A} → Permᴰ xs ys → any p xs ≡ any p ys
  any-perm p Permᴰ.nil = refl
  any-perm p (Permᴰ.cons e k) = rw (e, any-perm p k) refl
  any-perm p (Permᴰ.swap e f) = rw (e, f) (ground arith)
  any-perm p (Permᴰ.trans k l) = rw (any-perm p k, any-perm p l) refl

  pub any-filter : (p q : A → Bool) (xs : List A) → any p (filter q xs) ≡ any (λ x. q x && p x) xs
  any-filter p q [] = refl
  any-filter p q (x ∷ xs) = ground (arith, any-filter p q xs)

  pub any-true_of_find : (p : A → Bool) (xs : List A) {x : A} → find p xs ≡ some x → any p xs ≡ true
  any-true_of_find p xs h = let (m, t) = find-eq-some p xs h in any-of_mem p xs m t

  pub All-of_any-false : (p : A → Bool) (xs : List A) → any p xs ≡ false → All (λ x. p x ≡ false) xs
  All-of_any-false p [] h = tt
  All-of_any-false p (x ∷ xs) h = (ground arith, All-of_any-false p xs (ground arith))

  pub any-false-of_All : (p : A → Bool) (xs : List A) → All (λ x. p x ≡ false) xs → any p xs ≡ false
  any-false-of_All p [] h = refl
  any-false-of_All p (x ∷ xs) (h, hs) = ground (arith, any-false-of_All p xs hs)

  -- UPDATE of the row that a key selects; a primary key selects one row at most.
  abbrev pub update_first : (A → Bool) → (A → A) → List A → List A
  update_first p f [] = []
  update_first p f (x ∷ xs) = if p x then f x ∷ xs else x ∷ update_first p f xs

  -- ORDER BY key DESC
  abbrev pub insert_desc : (A → ℕ) → A → List A → List A
  insert_desc key x [] = x ∷ []
  insert_desc key x (y ∷ ys) = if leb (key y) (key x) then x ∷ y ∷ ys else y ∷ insert_desc key x ys

  -- Insertion sort; `first x y` says that `x` goes before `y`.
  unfoldable pub insert_sorted : (A → A → Bool) → A → List A → List A
  insert_sorted first x [] = x ∷ []
  insert_sorted first x (y ∷ ys) =
      let rest = insert_sorted first x ys in if first x y then x ∷ y ∷ ys else y ∷ rest

  unfoldable pub sorted : (A → A → Bool) → List A → List A
  unfolding insert_sorted
  sorted first [] = []
  sorted first (x ∷ xs) = insert_sorted first x (sorted first xs)

  abbrev pub sort_desc : (A → ℕ) → List A → List A
  sort_desc key [] = []
  sort_desc key (x ∷ xs) = insert_desc key x (sort_desc key xs)

  pub All-update_first {κ} :
      (P : A → Type κ) (p : A → Bool) (f : A → A) (xs : List A)
      → All P xs
      → ((x : A) → find p xs ≡ some x → P x → P (f x))
      → All P (update_first p f xs)
  All-update_first P p f [] h k = h
  All-update_first P p f (x ∷ xs) (hx, hs) k = elim (Bool-cases (p x)) [
    | inl e ↦ rw e (k x (rw e refl) hx, hs)
    | inr e ↦ rw e (hx, All-update_first P p f xs hs (λ y found. k y (rw e found)))
  ]

module _ {ℓ} {A : Type ℓ} where
  pub All-map {κ} :
      (P : A → Type κ) (f : A → A) (xs : List A)
      → All P xs
      → ((x : A) → P x → P (f x))
      → All P (map f xs)
  All-map P f [] h k = h
  All-map P f (x ∷ xs) (hx, hs) k = (k x hx, All-map P f xs hs k)

  pub All-map_to {κ} :
      (P Q : A → Type κ) (f : A → A) (xs : List A)
      → All P xs
      → ((x : A) → P x → Q (f x))
      → All Q (map f xs)
  All-map_to P Q f [] h k = h
  All-map_to P Q f (x ∷ xs) (hx, hs) k = (k x hx, All-map_to P Q f xs hs k)

  pub All-map_every {κ} :
      (Q : A → Type κ) (f : A → A) (xs : List A) → ((x : A) → Q (f x)) → All Q (map f xs)
  All-map_every Q f [] k = tt
  All-map_every Q f (x ∷ xs) k = (k x, All-map_every Q f xs k)

  pub All-weaken {κ} :
      (P Q : A → Type κ) (xs : List A) → All P xs → ((x : A) → P x → Q x) → All Q xs
  All-weaken P Q [] h k = h
  All-weaken P Q (x ∷ xs) (hx, hs) k = (k x hx, All-weaken P Q xs hs k)

  pub All-filter {κ} :
      (P : A → Type κ) (p : A → Bool) (xs : List A) → All P xs → All P (filter p xs)
  All-filter P p [] h = h
  All-filter P p (x ∷ xs) (hx, hs) = elim (Bool-cases (p x)) [
    | inl e ↦ rw e (hx, All-filter P p xs hs)
    | inr e ↦ rw e (All-filter P p xs hs)
  ]

  -- Each row of the first list stands, changed along R, in the same place of the second.
  abbrev pub Evolves : (A → A → Type 0) → List A → List A → Type 0
  Evolves R [] ys = Unit
  Evolves R (x ∷ xs) [] = ⊥
  Evolves R (x ∷ xs) (y ∷ ys) = R x y × Evolves R xs ys

  pub Evolves-refl : (R : A → A → Type 0) (xs : List A) → ((x : A) → R x x) → Evolves R xs xs
  Evolves-refl R [] h = tt
  Evolves-refl R (x ∷ xs) h = (h x, Evolves-refl R xs h)

  pub Evolves-trans :
      (R : A → A → Type 0) (xs ys zs : List A)
      → ((x y z : A) → R x y → R y z → R x z)
      → Evolves R xs ys
      → Evolves R ys zs
      → Evolves R xs zs
  Evolves-trans R [] ys zs t h k = tt
  Evolves-trans R (x ∷ xs) [] zs t h k = elim h [ ]
  Evolves-trans R (x ∷ xs) (y ∷ ys) [] t h k = elim k [ ]
  Evolves-trans R (x ∷ xs) (y ∷ ys) (z ∷ zs) t (h, hs) (k, ks) =
      (t x y z h k, Evolves-trans R xs ys zs t hs ks)

  pub Evolves-append :
      (R : A → A → Type 0) (xs ys : List A) → ((x : A) → R x x) → Evolves R xs (xs ++ ys)
  Evolves-append R [] ys h = tt
  Evolves-append R (x ∷ xs) ys h = (h x, Evolves-append R xs ys h)

  pub Evolves-map :
      (R : A → A → Type 0) (f : A → A) (xs : List A)
      → ((x : A) → R x (f x))
      → Evolves R xs (map f xs)
  Evolves-map R f [] h = tt
  Evolves-map R f (x ∷ xs) h = (h x, Evolves-map R f xs h)

  pub Evolves-update_first :
      (R : A → A → Type 0) (p : A → Bool) (f : A → A) (xs : List A)
      → ((x : A) → R x x)
      → ((x : A) → find p xs ≡ some x → R x (f x))
      → Evolves R xs (update_first p f xs)
  Evolves-update_first R p f [] h k = tt
  Evolves-update_first R p f (x ∷ xs) h k = elim (Bool-cases (p x)) [
    | inl e ↦ rw e (k x (rw e refl), Evolves-refl R xs h)
    | inr e ↦ rw e (h x, Evolves-update_first R p f xs h (λ y found. k y (rw e found)))
  ]
