-- ===== src/Strings/Laws.antt =====
-- Cutting at the first space, folding the case of letters, and splitting into words.
use Prim.Native.Char.{Char, code}
use Prim.Native.String
use Prim.Native.String.{String}
use text.Mathlib.TextEquality.{Char-path}
use text.Mathlib.TextLemmas.{nil-append, cons-append, append_assoc, append-nil}
use internal_jwt_handling.Base.{
  true, false, ◌≡◌, refl, ap, ◌≢◌, inl, inr, some, List, [], ◌∷◌, arith, nat_eq, Bool-cases,
  Option-cases, All,
}
use internal_jwt_handling.Strings.{
  contains_space, equal_fold, cut_space, push, emit, fields_from, fields, join_space,
}

-- No code point of the text is U+0020.
abbrev pub NoBlank : String → Type 0
NoBlank String.[] = Unit
NoBlank (String.◌∷◌ c s) = (nat_eq (code c) 0x20 ≡ false) × NoBlank s

pub cut_space-append :
    (a b : String) → NoBlank a → cut_space (String.◌++◌ a (String.◌∷◌ " " b)) ≡ some (a, b)
unfolding cut_space
cut_space-append String.[] b h = rw nil-append refl
cut_space-append (String.◌∷◌ c a) b (q, h) = rw cons-append (rw (q, cut_space-append a b h) refl)

code-blank : (c : Char) → nat_eq (code c) 0x20 ≡ true → c ≡ " "
code-blank c h = Char-path c " " (ground arith)

pub cut_space-eq-some :
    (s : String) {a b : String}
    → cut_space s ≡ some (a, b)
    → (s ≡ String.◌++◌ a (String.◌∷◌ " " b)) × NoBlank a
unfolding cut_space
cut_space-eq-some String.[] h = cc
cut_space-eq-some (String.◌∷◌ c s) {a} {b} h = elim (Bool-cases (nat_eq (code c) 0x20)) [
  | inl blank ↦
      let e : a ≡ "" = ground arith in
      let f : b ≡ s = ground arith in
      rw (e, f) ((rw nil-append (ap (λ d. String.◌∷◌ d s) (code-blank c blank))), tt)
  | inr other ↦ elim (Option-cases (cut_space s)) [
    | inl missed ↦ ground arith
    | inr ((x, y), found) ↦
        let (eq, rest) = cut_space-eq-some s found in
        let e : a ≡ String.◌∷◌ c x = ground arith in
        let f : b ≡ y = ground arith in
        rw (e, f) (rw cons-append (ap (String.◌∷◌ c) eq), (other, rest))
  ]
]

pub equal_fold-NoBlank : (s t : String) → equal_fold s t ≡ true → NoBlank t → NoBlank s
unfolding equal_fold
equal_fold-NoBlank String.[] t h k = tt
equal_fold-NoBlank (String.◌∷◌ c s) String.[] h k = cc
equal_fold-NoBlank (String.◌∷◌ c s) (String.◌∷◌ d t) h (p, k) =
    (ground arith, equal_fold-NoBlank s t (ground arith) k)

-- `fields` reads a word that is followed by a space, or that ends the text.
push-append : (a b : String) (c : Char) → String.◌++◌ (push a c) b ≡ String.◌++◌ a (String.◌∷◌ c b)
push-append a b c = rw (append_assoc, cons-append, nil-append)

emit_word : (w : String) (ws : List String) → w ≢ "" → emit w ws ≡ w ∷ ws
emit_word String.[] ws h = absurd (h refl)
emit_word (String.◌∷◌ c s) ws h = refl

fields_from-word :
    (cur w rest : String)
    → contains_space w ≡ false
    → fields_from cur (String.◌++◌ w (String.◌∷◌ " " rest))
      ≡ emit (String.◌++◌ cur w) (fields_from String.[] rest)
unfolding fields_from contains_space
fields_from-word cur String.[] rest h = rw (nil-append, append-nil) refl
fields_from-word cur (String.◌∷◌ c w) rest h =
    rw cons-append (ground (arith, fields_from-word (push cur c) w rest, push-append cur w c))

fields_from-last :
    (cur w : String) → contains_space w ≡ false → fields_from cur w ≡ emit (String.◌++◌ cur w) []
unfolding fields_from contains_space
fields_from-last cur String.[] h = rw append-nil refl
fields_from-last cur (String.◌∷◌ c w) h =
    ground (arith, fields_from-last (push cur c) w, push-append cur w c)

-- A word that `fields` gives back whole.
abbrev pub IsWord : String → Type 0
IsWord w = (w ≢ "") × (contains_space w ≡ false)

-- Words joined by single spaces are read back one by one.
pub fields-join_space : (ws : List String) → All IsWord ws → fields (join_space ws) ≡ ws
unfolding fields join_space
fields-join_space [] h = unfold fields_from in refl
fields-join_space (w ∷ []) ((n, p), h) = rw (fields_from-last "" w p, nil-append) (emit_word w [] n)
fields-join_space (w ∷ v ∷ ws) ((n, p), h) =
    rw (fields_from-word "" w (join_space (v ∷ ws)) p, nil-append)
      (rw (emit_word w (fields_from "" (join_space (v ∷ ws))) n)
        (ap (λ r. w ∷ r) (unfold fields in fields-join_space (v ∷ ws) h)))
