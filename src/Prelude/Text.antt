-- ===== src/Prelude/Text.antt =====
-- The string methods that the program calls, by recursion on the text.
use Prim.Native.Nat.{ℕ, zero, suc}
use Prim.Native.Char.{Char}
use Prim.Native.String.{String}
use mathlib.Core.List.{List, [], ◌∷◌, Memᴰ}
use Prim.Native.String
use mathlib.Core.Path.{◌≡◌, refl, sym, ap, ◌∙◌}
use mathlib.Core.Logic.{inl, inr}
use mathlib.Core.Bool.{Bool, true, false, ◌||◌}
use mathlib.Core.Option.{Option, none, some}
use native.Mathlib.Omega.{arith}
use text.Mathlib.Text.{◌==◌}
use text.Mathlib.TextEquality.{eq_iff}
use text.Mathlib.TextLemmas.{nil-append, cons-append, head-eq_of_cons-eq}
use keylore.Prelude.Tests.{Bool-cases}

infixr 60 ◌+++◌
abbrev pub ◌+++◌ : String → String → String
s +++ t = String.◌++◌ s t

-- `s.slice(n)` for a number that the text is not shorter than, else the empty text
abbrev pub drop : ℕ → String → String
drop zero s = s
drop (suc n) String.[] = ""
drop (suc n) (String.◌∷◌ c s) = drop n s

-- `s.startsWith(t)`
abbrev pub starts_with : String → String → Bool
starts_with s String.[] = true
starts_with String.[] (String.◌∷◌ d t) = false
starts_with (String.◌∷◌ c s) (String.◌∷◌ d t) =
    elim ((String.◌∷◌ c String.[]) == (String.◌∷◌ d String.[])) [
      | true ↦ starts_with s t
      | false ↦ false
    ]

-- `s.endsWith(t)`
unfoldable pub ends_with : String → String → Bool
ends_with String.[] t = "" == t
ends_with (String.◌∷◌ c s) t = ((String.◌∷◌ c s) == t) || ends_with s t

pub ends_with_sound : (s t : String) → ends_with s t ≡ true → (u : String) × (s ≡ u +++ t)
unfolding ends_with
ends_with_sound String.[] t h = ("", (eq_iff "" t).0 h ∙ sym (nil-append t))
ends_with_sound (String.◌∷◌ c s) t h = elim (Bool-cases ((String.◌∷◌ c s) == t)) [
  | inl e ↦ ("", (eq_iff (String.◌∷◌ c s) t).0 e ∙ sym (nil-append t))
  | inr e ↦
      let later : ends_with s t ≡ true = (ground arith) in
      let (u, same) = ends_with_sound s t later in
      (String.◌∷◌ c u, ap (λ v. String.◌∷◌ c v) same ∙ sym (cons-append c u t))
]

pub ends_with-append : (u t : String) → ends_with (u +++ t) t ≡ true
unfolding ends_with
ends_with-append String.[] String.[] = refl
ends_with-append String.[] (String.◌∷◌ d t) =
    rw (nil-append, (eq_iff (String.◌∷◌ d t) (String.◌∷◌ d t)).1 refl) refl
ends_with-append (String.◌∷◌ c u) t = rw cons-append (ground (arith, ends_with-append u t))

-- The empty text is falsy, and so is a missing one.
abbrev pub truthy : Option String → Bool
truthy none = false
truthy (some s) = elim (s == "") [ true ↦ false | false ↦ true ]

-- `list.includes(text)`
abbrev pub includes : List String → String → Bool
includes [] s = false
includes (t ∷ ts) s = t == s || includes ts s

one_char : (c d : Char) → ((String.◌∷◌ c "") == (String.◌∷◌ d "")) ≡ true → c ≡ d
one_char c d h = head-eq_of_cons-eq ((eq_iff (String.◌∷◌ c "") (String.◌∷◌ d "")).0 h)

cons-eq :
    {c d : Char} {s t : String}
    → ((String.◌∷◌ c "") == (String.◌∷◌ d "")) ≡ true
    → s ≡ t
    → String.◌∷◌ c s ≡ String.◌∷◌ d t
cons-eq {c} {d} e same = cc (one_char c d e)

pub starts_with_sound : (s t : String) → starts_with s t ≡ true → (u : String) × (s ≡ t +++ u)
starts_with_sound s String.[] h = (s, sym (nil-append s))
starts_with_sound String.[] (String.◌∷◌ d t) h = cc
starts_with_sound (String.◌∷◌ c s) (String.◌∷◌ d t) h =
    elim (Bool-cases ((String.◌∷◌ c "") == (String.◌∷◌ d ""))) [
      | inl e ↦
          let (u, same) = starts_with_sound s t (ground arith) in
          (u, cons-eq e same ∙ sym (cons-append d t u))
      | inr e ↦ absurd (ground arith)
    ]

pub starts_with-append : (t u : String) → starts_with (t +++ u) t ≡ true
starts_with-append String.[] u = refl
starts_with-append (String.◌∷◌ d t) u =
    rw cons-append
      (ground (arith, eq_iff (String.◌∷◌ d "") (String.◌∷◌ d ""), starts_with-append t u))

pub mem-of_includes : (ts : List String) (s : String) → includes ts s ≡ true → Memᴰ s ts
mem-of_includes [] s h = cc
mem-of_includes (t ∷ ts) s h = elim (Bool-cases (t == s)) [
  | inl e ↦ Memᴰ.head (sym ((eq_iff t s).0 e))
  | inr e ↦ Memᴰ.tail (mem-of_includes ts s (ground arith))
]

pub includes-of_mem : (ts : List String) (s : String) → Memᴰ s ts → includes ts s ≡ true
includes-of_mem [] s m = elim m [ ]
includes-of_mem (t ∷ ts) s (Memᴰ.head e) = ground (arith, eq_iff t s)
includes-of_mem (t ∷ ts) s (Memᴰ.tail m) = ground (arith, includes-of_mem ts s m)
