-- ===== src/Broker/Proxy/Body.antt =====
-- What `readLimitedResponseBody` of src/services/broker-service.ts keeps of a body.
use keylore.Prelude.{
  ℕ, zero, suc, ◌+◌, ◌-◌, ◌≤◌, ◌≡◌, refl, sym, ap, ◌∙◌, List, [], ◌∷◌, ◌++◌, arith, ltb, length,
  take, Bool-cases, inl, inr,
}
use keylore.Broker.Proxy.{read_chunks}

-- The bytes of all chunks.
abbrev pub flatten {ℓ} : {A : Type ℓ} → List (List A) → List A
flatten [] = []
flatten (chunk ∷ chunks) = chunk ++ flatten chunks

module _ {ℓ} {A : Type ℓ} where
  length-append : (xs ys : List A) → length (xs ++ ys) ≡ length xs + length ys
  length-append [] ys = ground arith
  length-append (x ∷ xs) ys = omega (arith, length-append xs ys)

  take-nil : (n : ℕ) → take {A = A} n [] ≡ []
  take-nil zero = refl
  take-nil (suc n) = refl

  take-short : (n : ℕ) (xs ys : List A) → n ≤ length xs → take n (xs ++ ys) ≡ take n xs
  take-short zero xs ys h = refl
  take-short (suc n) [] ys h = absurd (omega (arith, h))
  take-short (suc n) (x ∷ xs) ys h = ap (λ t. x ∷ t) (take-short n xs ys (omega (arith, h)))

  take-long :
      (n : ℕ) (xs ys : List A) → length xs ≤ n → take n (xs ++ ys) ≡ xs ++ take (n - length xs) ys
  take-long n [] ys h = ap (λ k. take k ys) (omega arith)
  take-long zero (x ∷ xs) ys h = absurd (omega (arith, h))
  take-long (suc n) (x ∷ xs) ys h =
      ap (λ t. x ∷ t)
        (take-long n xs ys (omega (arith, h)) ∙ ap (λ k. xs ++ take k ys) (omega arith))

pair-eq : {A B : Type 0} {a a' : A} {b b' : B} → a ≡ a' → b ≡ b' → ◌≡◌ {A = A × B} (a, b) (a', b')
pair-eq p q = rw (p, q) refl

read_chunks_from :
    (max_bytes total : ℕ) (chunks : List (List ℕ))
    → total ≤ max_bytes
    → read_chunks max_bytes total chunks
      ≡ (take (max_bytes - total) (flatten chunks), ltb max_bytes (total + length (flatten chunks)))
unfolding read_chunks
read_chunks_from m total [] h = pair-eq (sym (take-nil (m - total))) (ground arith)
read_chunks_from m total (value ∷ chunks) h =
    let all = length-append value (flatten chunks) in
    elim (Bool-cases (ltb m (total + length value))) [
      | inl e ↦ rw e (
          pair-eq
            (ap (λ k. take k value) (ground arith)
              ∙ sym (take-short (m - total) value (flatten chunks) (ground arith)))
            (ground (arith, all, e)))
      | inr e ↦
          let rest = read_chunks_from m (total + length value) chunks (ground arith) in
          rw (e, rest)
            (pair-eq
              (ap (λ k. value ++ take k (flatten chunks)) (omega arith)
                ∙ sym (take-long (m - total) value (flatten chunks) (ground arith)))
              (ap (ltb m) (omega (arith, all))))
    ]

-- However a body is cut into chunks, the first `max_bytes` of its bytes are kept, and it counts as
-- truncated just when it has more.
pub read_chunks-take :
    (max_bytes : ℕ) (chunks : List (List ℕ))
    → read_chunks max_bytes 0 chunks
      ≡ (take max_bytes (flatten chunks), ltb max_bytes (length (flatten chunks)))
read_chunks-take m chunks =
    read_chunks_from m 0 chunks (omega arith)
    ∙ pair-eq (ap (λ k. take k (flatten chunks)) (omega arith)) (ap (ltb m) (omega arith))
