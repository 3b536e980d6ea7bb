-- ===== src/Capture/HopHeaders/Listed.antt =====
-- What filterHopHeaders of internal/dependencycapture/proxy.go drops.
use mockingo_agent.Base.{
  true, ◌||◌, none, List, [], ◌∷◌, Bytes, codes, split, trim_space, all_of, has, if◌then◌else◌, ◌≡◌,
  refl, arith, sym, subst, In, here, there, In-left, In-right, In-append, In-map, map-In, map, ◌⊎◌,
  inl, inr, Bool,
}
use mockingo_agent.Base.Maps.{lookup}
use mockingo_agent.Protocol.Message.{HeaderMap}
use mockingo_agent.Capture.Headers.{one_of}
use mockingo_agent.ForwardHeaders.{connection_values}
use mockingo_agent.ForwardHeaders.Nominated.{
  IsListed, IsNominated, IsListed-cons, one_of-In, In-one_of,
}
use mockingo_agent.Capture.HopHeaders.{
  canonical_from, canonical_key, del_all, connection_names, hop_names, filter_hop_headers,
}
use mockingo_agent.Capture.HopHeaders.Laws.{keys_of, lookup-del_all, collected}
use mockingo_agent.Capture.HopHeaders.Copied.{IsCanonical, del_all-IsCanonical, collected-del_all}

-- The fields of a header that belong to the connection to a proxy, with the keys of http.Header.
abbrev pub proxy_fields : List Bytes
proxy_fields =
    codes "Connection"
    ∷ codes "Proxy-Connection"
    ∷ codes "Keep-Alive"
    ∷ codes "Proxy-Authenticate"
    ∷ codes "Proxy-Authorization"
    ∷ codes "Te"
    ∷ codes "Trailer"
    ∷ codes "Transfer-Encoding"
    ∷ codes "Upgrade"
    ∷ []

-- A key belongs to the connection, or the Connection header lists it.
abbrev pub IsHop : HeaderMap → Bytes → Type 0
IsHop headers key = In key proxy_fields ⊎ IsNominated canonical_key headers key

connection_names-IsListed :
    (values : List Bytes) (name key : Bytes)
    → canonical_key name ≡ key
    → In name (connection_names values)
    → IsListed canonical_key values key
unfolding connection_names
connection_names-IsListed [] name key e i = elim i [ ]
connection_names-IsListed (value ∷ values) name key e i =
    elim (In-append (map trim_space (split b',' value)) i) [
      | inl j ↦
          let (part, k, s) = In-map trim_space (split b',' value) j in
          (value, part, here values, k, subst (λ n. canonical_key n ≡ key) (sym s) e)
      | inr j ↦
          IsListed-cons canonical_key value key values
            (connection_names-IsListed values name key e j)
    ]

connection_names-In :
    (part : Bytes) {value : Bytes} {values : List Bytes}
    → In value values
    → In part (split b',' value)
    → In (trim_space part) (connection_names values)
unfolding connection_names
connection_names-In part {value} (here values) j =
    In-left (connection_names values) (map-In trim_space j)
connection_names-In part (there v i) j =
    In-right (map trim_space (split b',' v)) (connection_names-In part i j)

hop_canonical : keys_of hop_names ≡ hop_names
unfolding canonical_key canonical_from has all_of
hop_canonical = refl

-- The test that filterHopHeaders amounts to.
abbrev pub is_hop : HeaderMap → Bytes → Bool
is_hop headers key =
    one_of hop_names key || one_of (keys_of (connection_names (connection_values headers))) key

or_left : (a b : Bool) → a ≡ true → (a || b) ≡ true
or_left a b h = ground arith

or_right : (a b : Bool) → b ≡ true → (a || b) ≡ true
or_right a b h = ground arith

or_cases : (a b : Bool) → (a || b) ≡ true → (a ≡ true) ⊎ (b ≡ true)
or_cases a b h = ground arith

pub is_hop-IsHop :
    (headers : HeaderMap) (key : Bytes) → is_hop headers key ≡ true → IsHop headers key
is_hop-IsHop headers key h = elim (or_cases (one_of hop_names key) _ h) [
  | inl a ↦ inl (one_of-In hop_names key a)
  | inr b ↦
      let named = connection_names (connection_values headers) in
      let (name, i, e) = In-map canonical_key named (one_of-In (keys_of named) key b) in
      inr (connection_names-IsListed (connection_values headers) name key e i)
]

pub IsHop-is_hop :
    (headers : HeaderMap) (key : Bytes) → IsHop headers key → is_hop headers key ≡ true
IsHop-is_hop headers key (inl i) = or_left (one_of hop_names key) _ (In-one_of key i)
IsHop-is_hop headers key (inr (value, part, i, j, e)) = or_right (one_of hop_names key) _ (
    In-one_of key (
      subst (λ k. In k (keys_of (connection_names (connection_values headers)))) e
        (map-In canonical_key (connection_names-In part i j))))

join_hops {ℓ} :
    {A : Type ℓ} (a b : Bool) (gone x : A)
    → (if a then gone else if b then gone else x) ≡ (if a || b then gone else x)
join_hops a b gone x = ground arith

pub lookup-filter_hop :
    (headers : HeaderMap) (key : Bytes)
    → lookup key (filter_hop_headers headers)
      ≡ (if is_hop headers key then none else lookup key headers)
unfolding filter_hop_headers
lookup-filter_hop headers key =
    let named = connection_names (connection_values headers) in
    rw
      (
        lookup-del_all hop_names key (del_all named headers),
        lookup-del_all named key headers,
        hop_canonical,
      )
      (join_hops (one_of hop_names key) (one_of (keys_of named) key) none (lookup key headers))

pub collected-filter_hop :
    (headers : HeaderMap) (key : Bytes)
    → IsCanonical headers
    → collected key (filter_hop_headers headers)
      ≡ (if is_hop headers key then [] else collected key headers)
unfolding filter_hop_headers
collected-filter_hop headers key c =
    let named = connection_names (connection_values headers) in
    rw
      (
        collected-del_all hop_names key (del_all named headers)
            (del_all-IsCanonical named headers c),
        collected-del_all named key headers c,
        hop_canonical,
      )
      (join_hops (one_of hop_names key) (one_of (keys_of named) key) [] (collected key headers))
