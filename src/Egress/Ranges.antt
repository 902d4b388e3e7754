-- ===== src/Egress/Ranges.antt =====
-- The octet tests of src/services/egress-policy.ts as ranges of 32-bit addresses.
use keylore.Prelude.{
  ℕ, ◌+◌, ◌*◌, ◌<◌, ◌≡◌, refl, ap, ◌∙◌, Bool, true, false, ◌&&◌, ◌||◌, List, [], ◌∷◌, arith, leb,
  eqb, if◌then◌else◌, any, Bool-ext,
}
use keylore.Egress.Address.{blocked_octets}

-- The address a.b.c.d as a number.
abbrev pub address : ℕ → ℕ → ℕ → ℕ → ℕ
address a b c d = a * 16777216 + b * 65536 + c * 256 + d

abbrev pub in_range : ℕ → ℕ × ℕ → Bool
in_range n (lo, hi) = leb lo n && leb n hi

-- First and last address of each block.
abbrev pub blocked_ranges : List (ℕ × ℕ)
blocked_ranges =
    (address 0 0 0 0, address 0 255 255 255)
    ∷ (address 10 0 0 0, address 10 255 255 255)
    ∷ (address 127 0 0 0, address 127 255 255 255)
    ∷ (address 100 64 0 0, address 100 127 255 255)
    ∷ (address 169 254 0 0, address 169 254 255 255)
    ∷ (address 172 16 0 0, address 172 31 255 255)
    ∷ (address 192 0 0 0, address 192 0 255 255)
    ∷ (address 192 168 0 0, address 192 168 255 255)
    ∷ (address 198 18 100 0, address 198 18 100 255)
    ∷ (address 198 19 100 0, address 198 19 100 255)
    ∷ (address 198 51 100 0, address 198 51 100 255)
    ∷ (address 203 0 113 0, address 203 0 113 255)
    ∷ (address 224 0 0 0, address 255 255 255 255)
    ∷ []

module _ (a b c d : ℕ) (ha : a < 256) (hb : b < 256) (hc : c < 256) (hd : d < 256) where
  -- A block that the first octet decides, the first two, or the first three.
  first :
      (k l : ℕ)
      → (leb k a && leb a l) ≡ in_range (address a b c d) (address k 0 0 0, address l 255 255 255)
  first k l = Bool-ext _ _ (λ h. ground arith) (λ h. ground arith)

  second :
      (k m n : ℕ)
      → m < 256
      → n < 256
      → (eqb a k && (leb m b && leb b n))
        ≡ in_range (address a b c d) (address k m 0 0, address k n 255 255)
  second k m n hm hn = Bool-ext _ _ (λ h. ground arith) (λ h. ground arith)

  third :
      (k m n : ℕ)
      → m < 256
      → n < 256
      → (eqb a k && (eqb b m && eqb c n))
        ≡ in_range (address a b c d) (address k m n 0, address k m n 255)
  third k m n hm hn = Bool-ext _ _ (λ h. ground arith) (λ h. ground arith)

or_cong : {p q r s : Bool} → p ≡ q → r ≡ s → (p || r) ≡ (q || s)
or_cong e f = rw (e, f) refl

eqb-leb : (a k : ℕ) → eqb a k ≡ (leb k a && leb a k)
eqb-leb a k = ground arith

and_assoc : (p q r : Bool) → (p && q && r) ≡ (p && (q && r))
and_assoc p q r = ground arith

last_block : (a : ℕ) → a < 256 → leb 224 a ≡ ((leb 224 a && leb a 255) || false)
last_block a h = ground arith

-- One step of a chain of early returns, as a disjunction.
one : {p q r s : Bool} → p ≡ q → r ≡ s → (if p then true else r) ≡ (q || s)
one {p} {q} {r} {s} e f = rw (e, f) (ground arith)

three :
    {p p' q q' r r' s s' : Bool}
    → p ≡ p'
    → q ≡ q'
    → r ≡ r'
    → s ≡ s'
    → (if p || q || r then true else s) ≡ (p' || (q' || (r' || s')))
three {p' = p'} {q' = q'} {r' = r'} {s' = s'} e f g h = rw (e, f, g, h) (ground arith)

repeated :
    (p q r x : Bool) {q' r' s s' : Bool}
    → q ≡ q'
    → r ≡ r'
    → s ≡ s'
    → (if p && q then true else if p && r then true else if p && q && x then true else s)
      ≡ ((p && q') || ((p && r') || s'))
repeated p q r x {q' = q'} {r' = r'} {s' = s'} e f g = rw (e, f, g) (ground arith)

spread :
    (p q r t x : Bool) {s s' : Bool}
    → s ≡ s'
    → (if p && (q || r || t) && x then true else s)
      ≡ ((p && (q && x)) || ((p && (r && x)) || ((p && (t && x)) || s')))
spread p q r t x {s' = s'} e = rw e (ground arith)

-- The tests as one disjunction; the third test on 192 repeats an earlier one.
blocked_octets-or :
    (a b c : ℕ)
    → a < 256
    → blocked_octets a b c ≡ (
        (leb 0 a && leb a 0)
        || ((leb 10 a && leb a 10)
            || ((leb 127 a && leb a 127)
                || ((eqb a 100 && (leb 64 b && leb b 127))
                    || ((eqb a 169 && (leb 254 b && leb b 254))
                        || ((eqb a 172 && (leb 16 b && leb b 31))
                            || ((eqb a 192 && (leb 0 b && leb b 0))
                                || ((eqb a 192 && (leb 168 b && leb b 168))
                                    || ((eqb a 198 && (eqb b 18 && eqb c 100))
                                        || ((eqb a 198 && (eqb b 19 && eqb c 100))
                                            || ((eqb a 198 && (eqb b 51 && eqb c 100))
                                                || ((eqb a 203 && (eqb b 0 && eqb c 113))
                                                    || ((leb 224 a && leb a 255)
                                                        || false)))))))))))))
unfolding blocked_octets
blocked_octets-or a b c h = three (eqb-leb a 0) (eqb-leb a 10) (eqb-leb a 127) (
    one (and_assoc (eqb a 100) (leb 64 b) (leb b 127)) (
      one (ap (λ t. eqb a 169 && t) (eqb-leb b 254)) (
        one (and_assoc (eqb a 172) (leb 16 b) (leb b 31)) (
          repeated (eqb a 192) (eqb b 0) (eqb b 168) (eqb c 2) (eqb-leb b 0) (eqb-leb b 168) (
            spread (eqb a 198) (eqb b 18) (eqb b 19) (eqb b 51) (eqb c 100)
              (one (and_assoc (eqb a 203) (eqb b 0) (eqb c 113)) (last_block a h)))))))

-- For octets of one byte each, the tests hold exactly on the listed ranges of addresses.
pub blocked_octets-ranges :
    (a b c d : ℕ)
    → a < 256
    → b < 256
    → c < 256
    → d < 256
    → blocked_octets a b c ≡ any (in_range (address a b c d)) blocked_ranges
blocked_octets-ranges a b c d ha hb hc hd =
    blocked_octets-or a b c ha
    ∙ or_cong (first a b c d ha hb hc hd 0 0) (
        or_cong (first a b c d ha hb hc hd 10 10) (
          or_cong (first a b c d ha hb hc hd 127 127) (
            or_cong (second a b c d ha hb hc hd 100 64 127 (omega arith) (omega arith)) (
              or_cong (second a b c d ha hb hc hd 169 254 254 (omega arith) (omega arith)) (
                or_cong (second a b c d ha hb hc hd 172 16 31 (omega arith) (omega arith)) (
                  or_cong (second a b c d ha hb hc hd 192 0 0 (omega arith) (omega arith)) (
                    or_cong (second a b c d ha hb hc hd 192 168 168 (omega arith) (omega arith)) (
                      or_cong (third a b c d ha hb hc hd 198 18 100 (omega arith) (omega arith)) (
                        or_cong (third a b c d ha hb hc hd 198 19 100 (omega arith) (omega arith)) (
                          or_cong (third a b c d ha hb hc hd 198 51 100 (omega arith) (omega arith))
                            (or_cong
                              (third a b c d ha hb hc hd 203 0 113 (omega arith) (omega arith))
                              (or_cong (first a b c d ha hb hc hd 224 255) refl))))))))))))
