-- ===== src/Capture/Proxy/Replayed.antt =====
-- internal/dependencycapture/proxy.go: what a replayed response is made of.
use mockingo_agent.Base.{
  Bool, true, false, ◌||◌, Option, none, some, List, [], ◌∷◌, Bytes, codes, length, bytes_eq,
  bytes_eq_iff, some_of, all_of, has, ℤ, pos, if◌then◌else◌, ◌≡◌, ◌≢◌, refl, arith, ap, ◌∙◌, sym,
  In, here, there, Bool-cases, inl, inr,
}
use mockingo_agent.Base.Decimal.{itoa}
use mockingo_agent.Base.Maps.{lookup, insert}
use mockingo_agent.Protocol.Message.{HeaderMap, DependencyBehavior}
use mockingo_agent.Capture.Headers.{present, one_of}
use mockingo_agent.ForwardHeaders.{connection_values}
use mockingo_agent.Capture.HopHeaders.{
  canonical_from, canonical_key, del_all, copy_headers, connection_names, hop_names,
  filter_hop_headers,
}
use mockingo_agent.Capture.HopHeaders.Laws.{
  canonical_key_idem, keys_of, lookup-del_all, In-del_all, collected, lookup-copy_headers,
  In-collected,
}
use mockingo_agent.Capture.HopHeaders.Copied.{
  IsCanonical, del_all-IsCanonical, collected-del_all, collected-insert,
}
use mockingo_agent.Capture.Body.{Decoders}
use mockingo_agent.Capture.Proxy.{
  ProxyRequest, Url, Occasion, response, replay_excluded, replay_headers, replay,
}

abbrev content_length_key : Bytes
content_length_key = codes "Content-Length"

content_length_canonical : canonical_key content_length_key ≡ content_length_key
unfolding canonical_key canonical_from has all_of
content_length_canonical = refl

excluded_canonical : keys_of replay_excluded ≡ replay_excluded
unfolding canonical_key canonical_from has all_of
excluded_canonical = refl

hop_canonical : keys_of hop_names ≡ hop_names
unfolding canonical_key canonical_from has all_of
hop_canonical = refl

-- Whether a name is taken from the headers of a behavior: it is one of those that no replay sends,
-- it belongs to one connection, or a Connection header lists it.
abbrev pub is_dropped : HeaderMap → Bytes → Bool
is_dropped headers key =
    one_of replay_excluded key
    || one_of hop_names key
    || one_of (keys_of (connection_names (connection_values headers))) key

length_excluded : one_of replay_excluded content_length_key ≡ true
unfolding some_of bytes_eq
length_excluded = refl

join_drops :
    (a b c : Bool) (l : List Bytes)
    → (if a then [] else if b then [] else if c then [] else l) ≡ (if a || b || c then [] else l)
join_drops a b c l = ground arith

module _ (headers : HeaderMap) (body : Bytes) where
  abbrev kept_headers : HeaderMap
  kept_headers = del_all replay_excluded (filter_hop_headers headers)

  abbrev length_value : Option (List Bytes)
  length_value = some (itoa (pos (length body)) ∷ [])

  collected-kept :
      (key : Bytes)
      → IsCanonical headers
      → collected key kept_headers ≡ (if is_dropped headers key then [] else collected key headers)
  unfolding filter_hop_headers
  collected-kept key c =
      let named = connection_names (connection_values headers) in
      let c1 = del_all-IsCanonical named headers c in
      let c2 = del_all-IsCanonical hop_names (del_all named headers) c1 in
      rw
        (
          collected-del_all replay_excluded key (filter_hop_headers headers) c2,
          collected-del_all hop_names key (del_all named headers) c1,
          collected-del_all named key headers c,
          excluded_canonical,
          hop_canonical,
        )
        (join_drops (one_of replay_excluded key) (one_of hop_names key) (one_of (keys_of named) key)
          (collected key headers))

  kept-length : lookup content_length_key kept_headers ≡ none
  kept-length =
      lookup-del_all replay_excluded content_length_key (filter_hop_headers headers)
      ∙ rw (excluded_canonical, length_excluded) refl

  written-headers :
      (key : Bytes)
      → IsCanonical headers
      → present (
          lookup key
            (copy_headers (insert (canonical_key content_length_key) length_value kept_headers) []))
        ≡ (if bytes_eq content_length_key key
            then itoa (pos (length body)) ∷ []
            else if is_dropped headers key
            then []
            else collected key headers)
  unfolding lookup filter_hop_headers
  written-headers key c =
      lookup-copy_headers key (insert (canonical_key content_length_key) length_value kept_headers)
        []
      ∙ rw
          (
            content_length_canonical,
            collected-insert content_length_key key length_value kept_headers
                (del_all-IsCanonical replay_excluded (filter_hop_headers headers) (
                  del_all-IsCanonical hop_names _
                    (del_all-IsCanonical (connection_names (connection_values headers)) headers c)))
                content_length_canonical kept-length,
            ← collected-kept key c,
          )
          refl

-- A behavior whose header names are all in canonical form is replayed with its status, its body and
-- headers of which every name has these values, if the request's body can be read: Content-Length
-- has the length of the body as its one value; a name that no replay sends, that belongs to one
-- connection or that the Connection header lists has none; any other has those of the behavior.
pub replay-headers :
    (dec : Decoders) (now : Occasion) (request : ProxyRequest) (url : Url) (scheme host : Bytes)
    (port : ℤ) (b : DependencyBehavior) (headers : HeaderMap)
    → request.body.broken ≡ false
    → b.headers ≡ some headers
    → IsCanonical headers
    → (written : HeaderMap) × ((replay dec now request url scheme host port b).answer
        ≡ response b.status written b.body)
      × ((key : Bytes)
          → present (lookup key written) ≡ (
              if bytes_eq content_length_key key
              then itoa (pos (length b.body)) ∷ []
              else if is_dropped headers key
              then []
              else collected key headers))
unfolding replay replay_headers
replay-headers dec now request url scheme host port b headers whole e c = (
  copy_headers
      (insert (canonical_key content_length_key) (length_value headers b.body)
        (kept_headers headers b.body))
      [],
  rw (whole, e) refl,
  λ key. written-headers headers b.body key c,
)

In-insert :
    (key name : Bytes) (values w : Option (List Bytes)) {h : HeaderMap}
    → name ≢ key
    → In (name, values) h
    → In (name, values) (insert key w h)
unfolding insert
In-insert key name values w ne (here t) = rw (miss key name ne) (here (insert key w t))
  where
    miss : (key name : Bytes) → name ≢ key → bytes_eq name key ≡ false
    miss key name ne = ground (arith, bytes_eq_iff name key)
In-insert key name values w ne (there (j, x) i) = elim (Bool-cases (bytes_eq j key)) [
  | inl hit ↦ rw hit (there (key, w) i)
  | inr other ↦ rw other (there (j, x) (In-insert key name values w ne i))
]

sent-noncanonical :
    (headers : HeaderMap) (body name value : Bytes) (values : List Bytes)
    → canonical_key name ≢ name
    → In (name, some values) headers
    → In value values
    → In value (
        present (
          lookup (canonical_key name) (
            copy_headers
              (insert
                (canonical_key content_length_key)
                (length_value headers body)
                (kept_headers headers body))
              [])))
unfolding lookup filter_hop_headers
sent-noncanonical headers body name value values ne i v =
    let named = connection_names (connection_values headers) in
    let kept =
      In-del_all replay_excluded name (some values) ne
        (In-del_all hop_names name (some values) ne (In-del_all named name (some values) ne i)) in
    let all =
      In-insert (canonical_key content_length_key) name (some values) (length_value headers body)
        (λ e. ne (ap canonical_key e ∙ canonical_key_idem content_length_key ∙ sym e)) kept in
    rw
      (lookup-copy_headers (canonical_key name)
        (insert (canonical_key content_length_key) (length_value headers body)
          (kept_headers headers body))
        [])
      (In-collected name value values all v)

-- A header of a behavior whose name is not in canonical form is sent under the canonical name, with
-- each of its values, whatever that name is: the list of the names that no replay sends, the names
-- that belong to one connection and the Content-Length that the agent sets do not stop it.
pub replay-noncanonical :
    (dec : Decoders) (now : Occasion) (request : ProxyRequest) (url : Url) (scheme host : Bytes)
    (port : ℤ) (b : DependencyBehavior) (headers : HeaderMap) (name value : Bytes)
    (values : List Bytes)
    → request.body.broken ≡ false
    → b.headers ≡ some headers
    → canonical_key name ≢ name
    → In (name, some values) headers
    → In value values
    → (written : HeaderMap) × ((replay dec now request url scheme host port b).answer
        ≡ response b.status written b.body)
      × In value (present (lookup (canonical_key name) written))
unfolding replay replay_headers
replay-noncanonical dec now request url scheme host port b headers name value values whole e ne i
      v =
    (
      copy_headers
          (insert (canonical_key content_length_key) (length_value headers b.body)
            (kept_headers headers b.body))
          [],
      rw (whole, e) refl,
      sent-noncanonical headers b.body name value values ne i v,
    )
