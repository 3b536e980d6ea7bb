-- ===== src/Capture/HopHeaders/Laws.antt =====
-- What Del and Add of http.Header do to the headers that internal/dependencycapture sends.
use mockingo_agent.Base.{
  ℕ, ◌+◌, ◌-◌, Bool, true, false, ◌||◌, Option, none, some, List, [], ◌∷◌, ◌++◌, map, Bytes,
  bytes_eq, bytes_eq_iff, bytes_eq_refl, is_lower, is_upper, all_of, some_of, if◌then◌else◌, ◌==◌,
  ◌≡◌, ◌≢◌, refl, arith, ap, ap₂, sym, ◌∙◌, append-nil, append_assoc, In, here, there, In-left,
  In-right, and_true, Bool-cases, inl, inr,
}
use mockingo_agent.Base.Maps.{lookup, erase, lookup-insert, lookup-erase}
use mockingo_agent.Protocol.Message.{HeaderMap}
use mockingo_agent.Protocol.Text.{is_token_byte}
use mockingo_agent.Capture.Headers.{present, one_of}
use mockingo_agent.Capture.HopHeaders.{
  canonical_byte, canonical_from, canonical_key, del_all, add_header, add_values, copy_headers,
}

first_true : (a b d h : Bool) → a ≡ true → (a || b || d || h) ≡ true
first_true a b d h e = ground arith

second_true : (a b d h : Bool) → b ≡ true → (a || b || d || h) ≡ true
second_true a b d h e = ground arith

lower_token : (c : ℕ) → is_lower c ≡ true → is_token_byte c ≡ true
lower_token c h = first_true _ _ _ _ h

upper_token : (c : ℕ) → is_upper c ≡ true → is_token_byte c ≡ true
upper_token c h = second_true (is_lower c) _ _ _ h

canonical_byte_token :
    (upper : Bool) (c : ℕ) → is_token_byte c ≡ true → is_token_byte (canonical_byte upper c) ≡ true
canonical_byte_token true c h = elim (Bool-cases (is_lower c)) [
  | inr other ↦ rw other h
  | inl small ↦ rw small (upper_token (c - 32) (ground arith))
]
canonical_byte_token false c h = elim (Bool-cases (is_upper c)) [
  | inr other ↦ rw other h
  | inl capital ↦ rw capital (lower_token (c + 32) (ground arith))
]

canonical_byte_idem :
    (upper : Bool) (c : ℕ) → canonical_byte upper (canonical_byte upper c) ≡ canonical_byte upper c
canonical_byte_idem true c = ground arith
canonical_byte_idem false c = ground arith

canonical_byte_hyphen : (upper : Bool) (c : ℕ) → (canonical_byte upper c == b'-') ≡ (c == b'-')
canonical_byte_hyphen true c = ground arith
canonical_byte_hyphen false c = ground arith

canonical_from_idem :
    (upper : Bool) (s : Bytes)
    → canonical_from upper (canonical_from upper s) ≡ canonical_from upper s
unfolding canonical_from
canonical_from_idem upper [] = refl
canonical_from_idem upper (c ∷ s) = rw canonical_byte_hyphen (
    ap₂ (λ (a : ℕ) (b : Bytes). a ∷ b) (canonical_byte_idem upper c)
      (canonical_from_idem (c == b'-') s))

canonical_from_token :
    (upper : Bool) (s : Bytes)
    → all_of is_token_byte s ≡ true
    → all_of is_token_byte (canonical_from upper s) ≡ true
unfolding canonical_from all_of
canonical_from_token upper [] h = refl
canonical_from_token upper (c ∷ s) h =
    let (a, b) = and_true (is_token_byte c) (all_of is_token_byte s) h in
    rw (canonical_byte_token upper c a, canonical_from_token (c == b'-') s b)

pub canonical_key_idem : (name : Bytes) → canonical_key (canonical_key name) ≡ canonical_key name
unfolding canonical_key
canonical_key_idem name = elim (Bool-cases (all_of is_token_byte name)) [
  | inl token ↦ rw (token, canonical_from_token true name token) (canonical_from_idem true name)
  | inr other ↦ rw (other, other)
]

-- The keys that `del_all` removes.
abbrev pub keys_of : List Bytes → List Bytes
keys_of = map canonical_key

pub bytes_eq_comm : (a b : Bytes) → bytes_eq a b ≡ bytes_eq b a
bytes_eq_comm a b = ground (arith, bytes_eq_iff a b, bytes_eq_iff b a)

join_tests :
    {a b : Bool} (c : Bool) {x : Option (Option (List Bytes))} (y : Option (Option (List Bytes)))
    → a ≡ b
    → x ≡ (if a then none else y)
    → (if c then none else x) ≡ (if b || c then none else y)
join_tests {a} {b} c {x} y p q = ground arith

pub lookup-del_all :
    (names : List Bytes) (key : Bytes) (h : HeaderMap)
    → lookup key (del_all names h) ≡ (if one_of (keys_of names) key then none else lookup key h)
unfolding del_all some_of
lookup-del_all [] key h = refl
lookup-del_all (name ∷ names) key h =
    lookup-del_all names key (erase (canonical_key name) h)
    ∙ join_tests (one_of (keys_of names) key) (lookup key h)
        (bytes_eq_comm (canonical_key name) key) (lookup-erase (canonical_key name) key h)

In-erase :
    (key name : Bytes) (values : Option (List Bytes)) {h : HeaderMap}
    → name ≢ key
    → In (name, values) h
    → In (name, values) (erase key h)
unfolding erase
In-erase key name values ne (here t) = rw (miss key name ne) (here (erase key t))
  where
    miss : (key name : Bytes) → name ≢ key → bytes_eq name key ≡ false
    miss key name ne = ground (arith, bytes_eq_iff name key)
In-erase key name values ne (there (j, w) i) = elim (Bool-cases (bytes_eq j key)) [
  | inl hit ↦ rw hit (In-erase key name values ne i)
  | inr other ↦ rw other (there (j, w) (In-erase key name values ne i))
]

-- A header whose name is not in canonical form is removed by no call of Del.
pub In-del_all :
    (names : List Bytes) (name : Bytes) (values : Option (List Bytes)) {h : HeaderMap}
    → canonical_key name ≢ name
    → In (name, values) h
    → In (name, values) (del_all names h)
unfolding del_all
In-del_all [] name values ne i = i
In-del_all (n ∷ names) name values ne i = In-del_all names name values ne (
    In-erase (canonical_key n) name values
      (λ e. ne (ap canonical_key e ∙ canonical_key_idem n ∙ sym e)) i)

-- The values that the entries of a map give to a key, when they are copied by Add.
unfoldable pub collected : Bytes → HeaderMap → List Bytes
collected key [] = []
collected key ((name, values) ∷ h) =
    (if bytes_eq (canonical_key name) key then present (some values) else []) ++ collected key h

if_same : (b : Bool) → if◌then◌else◌ {A = List Bytes} b [] [] ≡ []
if_same b = ground arith

lookup-add_header :
    (name value key : Bytes) (h : HeaderMap)
    → present (lookup key (add_header name value h))
      ≡ present (lookup key h) ++ (if bytes_eq (canonical_key name) key then value ∷ [] else [])
lookup-add_header name value key h = elim (Bool-cases (bytes_eq (canonical_key name) key)) [
  | inl hit ↦
      rw
        (
          lookup-insert (canonical_key name) key
              (some (present (lookup (canonical_key name) h) ++ (value ∷ []))) h,
          hit,
        )
        (ap (λ (k : Bytes). present (lookup k h) ++ (value ∷ [])) ((bytes_eq_iff _ _).0 hit))
  | inr miss ↦
      rw
        (
          lookup-insert (canonical_key name) key
              (some (present (lookup (canonical_key name) h) ++ (value ∷ []))) h,
          miss,
        )
        (sym (append-nil _))
]

if_append :
    (b : Bool) (v : Bytes) (values : List Bytes)
    → (if b then v ∷ [] else []) ++ (if b then values else []) ≡ (if b then v ∷ values else [])
if_append true v values = refl
if_append false v values = refl

lookup-add_values :
    (name key : Bytes) (values : List Bytes) (h : HeaderMap)
    → present (lookup key (add_values name values h))
      ≡ present (lookup key h) ++ (if bytes_eq (canonical_key name) key then values else [])
unfolding add_values
lookup-add_values name key [] h =
    rw (if_same (bytes_eq (canonical_key name) key)) (sym (append-nil _))
lookup-add_values name key (v ∷ values) h =
    lookup-add_values name key values (add_header name v h)
    ∙ rw (lookup-add_header name v key h) (
        append_assoc (present (lookup key h)) _ _
        ∙ ap (λ (l : List Bytes). present (lookup key h) ++ l) (if_append _ v values))

pub lookup-copy_headers :
    (key : Bytes) (source h : HeaderMap)
    → present (lookup key (copy_headers source h)) ≡ present (lookup key h) ++ collected key source
unfolding copy_headers collected
lookup-copy_headers key [] h = sym (append-nil _)
lookup-copy_headers key ((name, values) ∷ source) h =
    lookup-copy_headers key source (add_values name (present (some values)) h)
    ∙ ap (λ (l : List Bytes). l ++ collected key source)
        (lookup-add_values name key (present (some values)) h)
    ∙ append_assoc (present (lookup key h)) _ (collected key source)

-- The values of an entry are among those that its name collects.
pub In-collected :
    (name v : Bytes) (values : List Bytes) {h : HeaderMap}
    → In (name, some values) h
    → In v values
    → In v (collected (canonical_key name) h)
unfolding collected
In-collected name v values (here t) i =
    rw (bytes_eq_refl (canonical_key name)) (In-left (collected (canonical_key name) t) i)
In-collected name v values (there (j, w) k) i =
    In-right (if bytes_eq (canonical_key j) (canonical_key name) then present (some w) else [])
      (In-collected name v values k i)
