-- ===== src/ForwardHeaders/Laws.antt =====
-- What `FilterHeaders` of internal/tunnelhttp/headers.go lets through.
use mockingo_agent.Base.{
  Bool, true, false, Option, none, some, List, [], ◌∷◌, ◌++◌, Bytes, codes, bytes_eq, bytes_eq_iff,
  to_lower, some_of, if◌then◌else◌, ◌≡◌, refl, arith, Bool-cases, inl, inr, ap, ap₂, sym, ◌∙◌, In,
  In-left, In-right, In-append, ◌⊎◌,
}
use mockingo_agent.Base.Maps.{lookup}
use mockingo_agent.Protocol.Message.{HeaderMap}
use mockingo_agent.Capture.Headers.{one_of}
use mockingo_agent.Capture.Redact.{copied}
use mockingo_agent.ForwardHeaders.Nominated.{
  connection_fields, IsNominated, Filtered, filtered, one_of-In, In-one_of, nominated-IsListed,
  IsListed-nominated,
}
use mockingo_agent.ForwardHeaders.{
  hop_by_hop, nominated, connection_values, blocked, copy_unblocked, filter_headers,
}

abbrev copied_entry : Option (Option (List Bytes)) → Option (Option (List Bytes))
copied_entry none = none
copied_entry (some values) = some (copied values)

lookup-copy_unblocked :
    (names : List Bytes) (key : Bytes) (src : HeaderMap)
    → lookup key (copy_unblocked names src)
      ≡ (if one_of names (to_lower key) then none else copied_entry (lookup key src))
unfolding lookup copy_unblocked
lookup-copy_unblocked names key [] = ground arith
lookup-copy_unblocked names key ((k, values) ∷ src) =
    let ih = lookup-copy_unblocked names key src in
    elim (Bool-cases (bytes_eq k key)) [
      | inl hit ↦
          let same = ap (λ (s : Bytes). one_of names (to_lower s)) ((bytes_eq_iff k key).0 hit) in
          elim (Bool-cases (one_of names (to_lower k))) [
            | inl gone ↦ rw (gone, ih, sym same ∙ gone)
            | inr kept ↦ rw (kept, hit, sym same ∙ kept)
          ]
      | inr miss ↦ elim (Bool-cases (one_of names (to_lower k))) [
        | inl gone ↦ rw (gone, miss, ih)
        | inr kept ↦ rw (kept, miss, ih)
      ]
    ]

-- What is forwarded of the values of a header: all of them; an empty list has become nil.
abbrev pub forwarded : Option (Option (List Bytes)) → Option (Option (List Bytes))
forwarded none = none
forwarded (some none) = some none
forwarded (some (some [])) = some none
forwarded (some (some (value ∷ values))) = some (some (value ∷ values))

copied_entry-forwarded :
    (entry : Option (Option (List Bytes))) → copied_entry entry ≡ forwarded entry
copied_entry-forwarded none = refl
copied_entry-forwarded (some none) = refl
copied_entry-forwarded (some (some [])) = refl
copied_entry-forwarded (some (some (value ∷ values))) = refl

-- A name belongs to one connection, or the Connection header nominates it; case does not matter.
abbrev pub IsBlocked : HeaderMap → Bytes → Type 0
IsBlocked src key = In (to_lower key) connection_fields ⊎ IsNominated to_lower src (to_lower key)

blocked-IsBlocked :
    (src : HeaderMap) (key : Bytes) → one_of (blocked src) (to_lower key) ≡ true → IsBlocked src key
blocked-IsBlocked src key h =
    elim (In-append hop_by_hop (one_of-In (blocked src) (to_lower key) h)) [
      | inl i ↦ inl i
      | inr i ↦ inr (nominated-IsListed (connection_values src) (to_lower key) i)
    ]

IsBlocked-blocked :
    (src : HeaderMap) (key : Bytes) → IsBlocked src key → one_of (blocked src) (to_lower key) ≡ true
IsBlocked-blocked src key (inl i) =
    In-one_of (to_lower key) (In-left (nominated (connection_values src)) i)
IsBlocked-blocked src key (inr l) =
    In-one_of (to_lower key)
      (In-right hop_by_hop (IsListed-nominated (connection_values src) (to_lower key) l))

-- A header is dropped exactly if, whatever the case of its letters, its name is one of the eight
-- fields that belong to one connection, or a part of a value of the Connection header, cut at commas
-- and without the blanks around it; every other header is forwarded with its own values.
pub lookup-filter_headers :
    (src : HeaderMap) (key : Bytes)
    → Filtered
        (IsBlocked src key)
        none
        (forwarded (lookup key src))
        (lookup key (filter_headers src))
unfolding filter_headers
lookup-filter_headers src key =
    filtered (one_of (blocked src) (to_lower key)) (blocked-IsBlocked src key)
      (IsBlocked-blocked src key)
      (rw (← copied_entry-forwarded (lookup key src)) (lookup-copy_unblocked (blocked src) key src))

some_of-append_left :
    (p : Bytes → Bool) (xs ys : List Bytes) → some_of p xs ≡ true → some_of p (xs ++ ys) ≡ true
unfolding some_of
some_of-append_left p [] ys h = cc
some_of-append_left p (x ∷ xs) ys h = ground (arith, some_of-append_left p xs ys)

some_of-front :
    (p : Bytes → Bool) (xs ys : List Bytes) → some_of p (xs ++ ys) ≡ false → some_of p xs ≡ false
unfolding some_of
some_of-front p [] ys h = refl
some_of-front p (x ∷ xs) ys h = ground (arith, some_of-front p xs ys)

copied_idem : (values : Option (List Bytes)) → copied (copied values) ≡ copied values
copied_idem none = refl
copied_idem (some []) = refl
copied_idem (some (v ∷ vs)) = refl

-- A list without names of one set is copied whole by a set that has no others.
copy_unblocked_again :
    (fewer names : List Bytes) (src : HeaderMap)
    → ((s : Bytes) → one_of names s ≡ false → one_of fewer s ≡ false)
    → copy_unblocked fewer (copy_unblocked names src) ≡ copy_unblocked names src
unfolding copy_unblocked
copy_unblocked_again fewer names [] sub = refl
copy_unblocked_again fewer names ((key, values) ∷ src) sub =
    let ih = copy_unblocked_again fewer names src sub in
    elim (Bool-cases (one_of names (to_lower key))) [
      | inl gone ↦ rw gone ih
      | inr kept ↦
          rw (kept, sub (to_lower key) kept)
            (ap₂ (λ (v : Option (List Bytes)) (l : HeaderMap). (key, v) ∷ l) (copied_idem values)
              ih)
    ]

no_connection : (src : HeaderMap) → connection_values (filter_headers src) ≡ []
unfolding filter_headers
no_connection src = rw (lookup-copy_unblocked (blocked src) (codes "Connection") src) (rw hop refl)
  where
    hop : one_of (blocked src) (to_lower (codes "Connection")) ≡ true
    hop =
        unfold to_lower in
        some_of-append_left (bytes_eq (codes "connection")) hop_by_hop
          (nominated (connection_values src)) (unfold some_of bytes_eq in refl)

-- What was filtered once is left as it is by a second filter, as on the next hop.
pub filter_headers_idem :
    (src : HeaderMap) → filter_headers (filter_headers src) ≡ filter_headers src
unfolding filter_headers nominated
filter_headers_idem src =
    ap (λ (vs : List Bytes). copy_unblocked (hop_by_hop ++ nominated vs) (filter_headers src))
      (no_connection src)
    ∙ copy_unblocked_again hop_by_hop (blocked src) src
        (λ s h. some_of-front (bytes_eq s) hop_by_hop (nominated (connection_values src)) h)
