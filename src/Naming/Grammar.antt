-- ===== src/Naming/Grammar.antt =====
-- internal/naming/naming.go against a grammar: a name is words of letters and digits, joined by
-- single hyphens.
use mockingo_agent.Base.{
  ℕ, Bool, true, false, ◌||◌, ◌&&◌, not, Option, none, some, List, [], ◌∷◌, Bytes, length, is_empty,
  is_lower, is_digit, all_of, split, split-cons, ltb, leb, ◌==◌, if◌then◌else◌, ◌≡◌, refl, arith,
  Bool-cases, inl, inr, ap, sym, ◌∙◌,
}
use mockingo_agent.Capture.Headers.{one_of}
use mockingo_agent.Naming.{
  NameError, bad_length, bad_character, bad_hyphen, check_reserved, check_characters, validate,
  reserved_names, is_name_byte,
}

-- A word: at least one byte, all of them lower-case letters and digits.
abbrev pub is_word : Bytes → Bool
is_word w = not (is_empty w) && all_of (λ c. is_lower c || is_digit c) w

unfoldable pub accepts : Option NameError → Bool
accepts none = true
accepts (some e) = false

-- The first word may have begun already, if it is no edge.
words : Bool → List Bytes → Bool
words edge [] = true
words edge (w ∷ ws) =
    (not edge || not (is_empty w)) && all_of (λ c. is_lower c || is_digit c) w && all_of is_word ws

accepts-step :
    (fine bad : Bool) (rest : Option NameError)
    → accepts (elim fine [
      | false ↦ some bad_character
      | true ↦ elim bad [ true ↦ some bad_hyphen | false ↦ rest ]
    ])
      ≡ (fine && not bad && accepts rest)
unfolding accepts
accepts-step false bad rest = refl
accepts-step true true rest = refl
accepts-step true false rest = refl

check_characters-step :
    (edge : Bool) (c : ℕ) (s : Bytes)
    → accepts (check_characters edge (c ∷ s)) ≡ (
        is_name_byte c
        && not ((c == b'-') && (edge || is_empty s))
        && accepts (check_characters (c == b'-') s))
unfolding check_characters
check_characters-step edge c [] = accepts-step _ _ _
check_characters-step edge c (d ∷ s) = accepts-step _ _ _

-- The tests of a step on both sides, at a hyphen and inside a word.
after_hyphen :
    (edge low dig no_word word rest : Bool)
    → ((low || dig || true) && not (edge || false) && ((not true || not no_word) && word && rest))
      ≡ ((not edge || false) && true && ((not no_word && word) && rest))
after_hyphen edge low dig no_word word rest = ground arith

inside_word :
    (edge low dig word rest : Bool)
    → ((low || dig || false) && true && ((not false || true) && word && rest))
      ≡ ((not edge || true) && ((low || dig) && word) && rest)
inside_word edge low dig word rest = ground arith

hyphen_last :
    (edge low dig rest : Bool)
    → ((low || dig || true) && not (edge || true) && rest) ≡ ((not edge || false) && true && false)
hyphen_last edge low dig rest = ground arith

byte_last :
    (edge low dig : Bool)
    → ((low || dig || false) && true && true)
      ≡ ((not edge || true) && ((low || dig) && true) && true)
byte_last edge low dig = ground arith

check_characters-end : (edge : Bool) → accepts (check_characters edge []) ≡ true
unfolding check_characters accepts
check_characters-end edge = refl

check_characters-words :
    (edge : Bool) (s : Bytes)
    → (edge && is_empty s) ≡ false
    → accepts (check_characters edge s) ≡ words edge (split b'-' s)
unfolding accepts words split all_of
check_characters-words false [] h = unfold check_characters in refl
check_characters-words true [] h = cc
check_characters-words edge (c ∷ []) h = elim (Bool-cases (c == b'-')) [
  | inl hit ↦
      rw (hit, check_characters-step edge c [])
        (rw hit (hyphen_last edge (is_lower c) (is_digit c) _))
  | inr miss ↦
      rw (miss, check_characters-step edge c [])
        (rw (miss, check_characters-end false) (byte_last edge (is_lower c) (is_digit c)))
]
check_characters-words edge (c ∷ d ∷ s) h =
    let (w, ws, e) = split-cons b'-' (d ∷ s) in
    elim (Bool-cases (c == b'-')) [
      | inl hit ↦
          let ih : accepts (check_characters true (d ∷ s)) ≡ words true (w ∷ ws) =
            check_characters-words true (d ∷ s) refl ∙ ap (words true) e in
          rw (hit, e, check_characters-step edge c (d ∷ s))
            (rw (hit, ih) (after_hyphen edge (is_lower c) (is_digit c) (is_empty w) _ _))
      | inr miss ↦
          let ih : accepts (check_characters false (d ∷ s)) ≡ words false (w ∷ ws) =
            check_characters-words false (d ∷ s) refl ∙ ap (words false) e in
          rw (miss, e, check_characters-step edge c (d ∷ s))
            (rw (miss, ih) (inside_word edge (is_lower c) (is_digit c) _ _))
    ]

words-all_of : (w : Bytes) (ws : List Bytes) → words true (w ∷ ws) ≡ all_of is_word (w ∷ ws)
unfolding words all_of
words-all_of w ws = ground arith

check_characters-all_of :
    (c : ℕ) (s : Bytes)
    → accepts (check_characters true (c ∷ s)) ≡ all_of is_word (split b'-' (c ∷ s))
check_characters-all_of c s =
    let (w, ws, e) = split-cons b'-' (c ∷ s) in
    check_characters-words true (c ∷ s) refl
    ∙ ap (words true) e
    ∙ words-all_of w ws
    ∙ ap (all_of is_word) (sym e)

check_reserved-accepts :
    (name : Bytes) (o : Option NameError)
    → accepts (check_reserved name o) ≡ (accepts o && not (one_of reserved_names name))
unfolding accepts
check_reserved-accepts name none = ground arith
check_reserved-accepts name (some e) = refl

-- A name is accepted exactly if it has 3 to 40 bytes, is one or more words of lower-case letters and
-- digits with a single hyphen between them, and is none of the reserved names.
pub validate-words :
    (name : Bytes)
    → accepts (validate name) ≡ (
        leb 3 (length name)
        && leb (length name) 40
        && all_of is_word (split b'-' name)
        && not (one_of reserved_names name))
unfolding validate accepts
validate-words [] = refl
validate-words (c ∷ s) = by_length 3 40 (length (c ∷ s)) _ _ _ (
    check_reserved-accepts (c ∷ s) (check_characters true (c ∷ s))
    ∙ ap (λ (b : Bool). b && not (one_of reserved_names (c ∷ s))) (check_characters-all_of c s))
  where
    by_length :
        (lo hi n : ℕ) (o : Option NameError) (b r : Bool)
        → accepts o ≡ (b && r)
        → accepts (if ltb n lo || ltb hi n then some bad_length else o)
          ≡ (leb lo n && leb n hi && b && r)
    by_length lo hi n o b r e = ground (arith, e)
