-- ===== src/Capture/HopHeaders/Copied.antt =====
-- internal/dependencycapture/proxy.go: the headers that are left when Del, Set and Add have been
-- applied to headers with names in canonical form.
use mockingo_agent.Base.{
  true, Option, none, some, List, [], ◌∷◌, Bytes, bytes_eq, bytes_eq_iff, some_of, if◌then◌else◌,
  ◌≡◌, refl, arith, ◌∙◌, append-nil, Bool-cases, inl, inr,
}
use mockingo_agent.Base.Maps.{lookup, insert, erase}
use mockingo_agent.Protocol.Message.{HeaderMap}
use mockingo_agent.Capture.Headers.{present, one_of}
use mockingo_agent.Capture.HopHeaders.{canonical_key, del_all}
use mockingo_agent.Capture.HopHeaders.Laws.{bytes_eq_comm, collected, keys_of}

-- Every name is in canonical form.
abbrev pub IsCanonical : HeaderMap → Type 0
IsCanonical [] = Unit
IsCanonical ((name, values) ∷ h) = (canonical_key name ≡ name) × IsCanonical h

erase-IsCanonical : (key : Bytes) (h : HeaderMap) → IsCanonical h → IsCanonical (erase key h)
unfolding erase
erase-IsCanonical key [] c = tt
erase-IsCanonical key ((name, values) ∷ h) c = elim (Bool-cases (bytes_eq name key)) [
  | inl hit ↦ rw hit (erase-IsCanonical key h c.1)
  | inr other ↦ rw other (c.0, erase-IsCanonical key h c.1)
]

pub del_all-IsCanonical :
    (names : List Bytes) (h : HeaderMap) → IsCanonical h → IsCanonical (del_all names h)
unfolding del_all
del_all-IsCanonical [] h c = c
del_all-IsCanonical (name ∷ names) h c =
    del_all-IsCanonical names (erase (canonical_key name) h)
      (erase-IsCanonical (canonical_key name) h c)

collected-erase :
    (k key : Bytes) (h : HeaderMap)
    → IsCanonical h
    → collected key (erase k h) ≡ (if bytes_eq k key then [] else collected key h)
unfolding erase collected
collected-erase k key [] c = ground arith
collected-erase k key ((name, values) ∷ h) c = elim (Bool-cases (bytes_eq name k)) [
  | inl hit ↦
      rw (hit, collected-erase k key h c.1, c.0)
        (ground (arith, bytes_eq_iff k key, bytes_eq_iff name k, bytes_eq_iff name key))
  | inr other ↦
      rw (other, collected-erase k key h c.1, c.0)
        (ground (arith, bytes_eq_iff k key, bytes_eq_iff name k, bytes_eq_iff name key))
]

pub collected-del_all :
    (names : List Bytes) (key : Bytes) (h : HeaderMap)
    → IsCanonical h
    → collected key (del_all names h) ≡ (if one_of (keys_of names) key then [] else collected key h)
unfolding del_all some_of
collected-del_all [] key h c = refl
collected-del_all (name ∷ names) key h c =
    collected-del_all names key (erase (canonical_key name) h)
      (erase-IsCanonical (canonical_key name) h c)
    ∙ rw (collected-erase (canonical_key name) key h c, bytes_eq_comm (canonical_key name) key)
        (ground arith)

-- A header that is added under a name that no other has.
pub collected-insert :
    (k key : Bytes) (values : Option (List Bytes)) (h : HeaderMap)
    → IsCanonical h
    → canonical_key k ≡ k
    → lookup k h ≡ none
    → collected key (insert k values h)
      ≡ (if bytes_eq k key then present (some values) else collected key h)
unfolding insert lookup collected
collected-insert k key values [] c e new = rw e (append-nil _ ∙ ground arith)
collected-insert k key values ((name, w) ∷ h) c e new = elim (Bool-cases (bytes_eq name k)) [
  | inl hit ↦ absurd (found hit)
  | inr other ↦
      rw (other, collected-insert k key values h c.1 e (rw other at new), c.0)
        (ground (arith, bytes_eq_iff k key, bytes_eq_iff name k, bytes_eq_iff name key))
]
  where
    found : bytes_eq name k ≡ true → ⊥
    found hit = ground arith
