-- ===== src/ForwardHeaders/Nominated.antt =====
-- The header names that the values of the Connection header nominate: what `FilterHeaders` of
-- internal/tunnelhttp/headers.go and `filterHopHeaders` of internal/dependencycapture/proxy.go read.
use mockingo_agent.Base.{
  Bool, true, false, if◌then◌else◌, List, [], ◌∷◌, Bytes, codes, bytes_eq, bytes_eq_iff,
  bytes_eq_refl, split, trim_space, to_lower, some_of, ◌≡◌, refl, arith, subst, In, here, there,
  In-left, In-right, In-append, In-map, map-In, ◌⊎◌, inl, inr, Bool-cases,
}
use mockingo_agent.Base.Maps.{lookup}
use mockingo_agent.Protocol.Message.{HeaderMap}
use mockingo_agent.Capture.Headers.{one_of, present}
use mockingo_agent.ForwardHeaders.{lowered, nominated}

-- One of the values, cut at its commas, has a part that comes to the name when the blanks around it
-- are dropped and it is spelt as `spell` does.
abbrev pub IsListed : (Bytes → Bytes) → List Bytes → Bytes → Type 0
IsListed spell values name =
    (value : Bytes) × (part : Bytes) × In value values
    × In part (split b',' value)
    × (spell (trim_space part) ≡ name)

-- A value of the header's Connection field lists the name.
abbrev pub IsNominated : (Bytes → Bytes) → HeaderMap → Bytes → Type 0
IsNominated spell headers name = IsListed spell (present (lookup (codes "Connection") headers)) name

-- The fields of a header that belong to one connection, in small letters.
abbrev pub connection_fields : List Bytes
connection_fields =
    codes "connection"
    ∷ codes "keep-alive"
    ∷ codes "proxy-authenticate"
    ∷ codes "proxy-authorization"
    ∷ codes "te"
    ∷ codes "trailer"
    ∷ codes "transfer-encoding"
    ∷ codes "upgrade"
    ∷ []

-- What a header comes to that is dropped if its name has a property, and kept otherwise.
abbrev pub Filtered {ℓ} : {A : Type ℓ} → Type 0 → A → A → A → Type ℓ
Filtered Dropped gone before after = (Dropped × (after ≡ gone)) ⊎ ((Dropped → ⊥) × (after ≡ before))

pub filtered {ℓ} :
    {A : Type ℓ} {Dropped : Type 0} {gone before after : A} (b : Bool)
    → (b ≡ true → Dropped)
    → (Dropped → b ≡ true)
    → after ≡ (if b then gone else before)
    → Filtered Dropped gone before after
filtered true drops keeps e = inl (drops refl, e)
filtered false drops keeps e = inr (λ d. false_true (keeps d), e)
  where
    false_true : ◌≡◌ {A = Bool} false true → ⊥
    false_true h = cc

pub IsListed-cons :
    (spell : Bytes → Bytes) (value name : Bytes) (values : List Bytes)
    → IsListed spell values name
    → IsListed spell (value ∷ values) name
IsListed-cons spell value name values (v, part, i, j, e) = (v, part, there value i, j, e)

pub one_of-In : (names : List Bytes) (s : Bytes) → one_of names s ≡ true → In s names
unfolding some_of
one_of-In [] s h = cc
one_of-In (n ∷ names) s h = elim (Bool-cases (bytes_eq s n)) [
  | inl hit ↦ subst (λ m. In s (m ∷ names)) ((bytes_eq_iff s n).0 hit) (here names)
  | inr miss ↦ there n (one_of-In names s (rw miss at h))
]

pub In-one_of : (s : Bytes) {names : List Bytes} → In s names → one_of names s ≡ true
unfolding some_of
In-one_of s (here names) = rw (bytes_eq_refl s) refl
In-one_of s (there n i) = ground (arith, In-one_of s i)

pub nominated-IsListed :
    (values : List Bytes) (name : Bytes)
    → In name (nominated values)
    → IsListed to_lower values name
unfolding nominated
nominated-IsListed [] name i = elim i [ ]
nominated-IsListed (value ∷ values) name i = elim (In-append (lowered (split b',' value)) i) [
  | inl j ↦
      let (part, k, e) = In-map (λ key. to_lower (trim_space key)) (split b',' value) j in
      (value, part, here values, k, e)
  | inr j ↦ IsListed-cons to_lower value name values (nominated-IsListed values name j)
]

nominated-part :
    (part : Bytes) {value : Bytes} {values : List Bytes}
    → In value values
    → In part (split b',' value)
    → In (to_lower (trim_space part)) (nominated values)
unfolding nominated
nominated-part part {value} (here values) j =
    In-left (nominated values) (map-In (λ key. to_lower (trim_space key)) j)
nominated-part part (there v i) j = In-right (lowered (split b',' v)) (nominated-part part i j)

pub IsListed-nominated :
    (values : List Bytes) (name : Bytes)
    → IsListed to_lower values name
    → In name (nominated values)
IsListed-nominated values name (value, part, i, j, e) =
    subst (λ s. In s (nominated values)) e (nominated-part part i j)
