-- ===== src/Capture/Behaviors/Lookup.antt =====
-- `Replace` and `Match` of internal/dependencycapture/behaviors.go against a search through the
-- snapshot.
use mockingo_agent.Base.{
  ℕ, ◌+◌, Bool, true, false, ◌&&◌, Option, none, some, List, [], ◌∷◌, Bytes, length, find, some_of,
  bytes_eq, bytes_eq_iff, bytes_eq_refl, ℤ, pos, eq_int, eq_int_iff, ◌≡◌, refl, arith, Bool-cases,
  inl, inr, ap, sym, ◌∙◌, subst, In, here, there,
}
use mockingo_agent.Base.Maps.{lookup, insert, lookup-insert, length-insert_new}
use mockingo_agent.Protocol.Message.{DependencyBehavior}
use mockingo_agent.Protocol.Text.{Externals}
use mockingo_agent.Protocol.Text.Accepted.{IpLaws}
use mockingo_agent.Protocol.Validation.{matcher_key, behavior_key}
use mockingo_agent.Protocol.Validation.Config.{IsRoutable, Accepted}
use mockingo_agent.Capture.Behaviors.{index}
use mockingo_agent.Capture.Behaviors.Keys.{
  Target, IsZeroFree, target_key, target_key-injective, target_of, target_of-IsZeroFree,
}

-- Search by key.
abbrev pub with_key : Bytes → DependencyBehavior → Bool
with_key k b = bytes_eq (behavior_key b) k

abbrev pub or_else :
    Option DependencyBehavior → Option DependencyBehavior → Option DependencyBehavior
or_else none d = d
or_else (some b) d = some b

met : (k j : Bytes) (seen : List Bytes) → k ≡ j → some_of (bytes_eq k) (j ∷ seen) ≡ true
unfolding some_of
met k j seen e = rw ((bytes_eq_iff k j).1 e)

-- A key that was met before the rest of the snapshot does not occur in it.
find-seen :
    (ext : Externals) (k : Bytes) (seen : List Bytes) (bs : List DependencyBehavior)
    → Accepted ext seen bs
    → some_of (bytes_eq k) seen ≡ true
    → find (with_key k) bs ≡ none
unfolding find some_of
find-seen ext k seen [] acc h = refl
find-seen ext k seen (b ∷ bs) acc h = elim (Bool-cases (with_key k b)) [
  | inl hit ↦
      let same : some_of (bytes_eq k) seen ≡ false =
        subst (λ j. some_of (bytes_eq j) seen ≡ false) ((bytes_eq_iff _ _).0 hit) acc.1 in
      ground arith
  | inr miss ↦ rw miss (find-seen ext k (behavior_key b ∷ seen) bs acc.2 (ground arith))
]

pub lookup-index :
    (ext : Externals) (k : Bytes) (seen : List Bytes) (bs : List DependencyBehavior)
    (m : List (Bytes × DependencyBehavior))
    → Accepted ext seen bs
    → lookup k (index bs m) ≡ or_else (find (with_key k) bs) (lookup k m)
unfolding find index
lookup-index ext k seen [] m acc = refl
lookup-index ext k seen (b ∷ bs) m acc =
    lookup-index ext k (behavior_key b ∷ seen) bs (insert (behavior_key b) b m) acc.2
    ∙ elim (Bool-cases (with_key k b)) [
      | inl hit ↦
          let e : behavior_key b ≡ k = (bytes_eq_iff _ _).0 hit in
          rw (
            hit,
            lookup-insert (behavior_key b) k b m,
            hit,
            find-seen ext k (behavior_key b ∷ seen) bs acc.2 (met k (behavior_key b) seen (sym e)),
          )
      | inr miss ↦ rw (miss, lookup-insert (behavior_key b) k b m, miss)
    ]

pub length-index :
    (ext : Externals) (seen : List Bytes) (bs : List DependencyBehavior)
    (m : List (Bytes × DependencyBehavior))
    → ((k : Bytes) → some_of (bytes_eq k) seen ≡ false → lookup k m ≡ none)
    → Accepted ext seen bs
    → length (index bs m) ≡ length m + length bs
unfolding index some_of
length-index ext seen [] m new acc = omega arith
length-index ext seen (b ∷ bs) m new acc = omega (
  arith,
  length-insert_new (behavior_key b) b m (new (behavior_key b) acc.1),
  length-index ext (behavior_key b ∷ seen) bs (insert (behavior_key b) b m) still acc.2,
)
  where
    still :
        (k : Bytes)
        → some_of (bytes_eq k) (behavior_key b ∷ seen) ≡ false
        → lookup k (insert (behavior_key b) b m) ≡ none
    still k h = ground (
      arith,
      lookup-insert (behavior_key b) k b m,
      bytes_eq_iff (behavior_key b) k,
      bytes_eq_iff k (behavior_key b),
      new k,
    )

-- A behavior of the snapshot is the first with its key.
pub find-In :
    (ext : Externals) (b : DependencyBehavior) (seen : List Bytes) {bs : List DependencyBehavior}
    → Accepted ext seen bs
    → In b bs
    → find (with_key (behavior_key b)) bs ≡ some b
unfolding find
find-In ext b seen acc (here bs) = rw (bytes_eq_refl (behavior_key b))
find-In ext b seen acc (there x {xs} i) =
    let ih = find-In ext b (behavior_key x ∷ seen) acc.2 i in
    elim (Bool-cases (with_key (behavior_key b) x)) [
      | inl hit ↦
          let gone =
            find-seen ext (behavior_key b) (behavior_key x ∷ seen) xs acc.2
              (met (behavior_key b) (behavior_key x) seen (sym ((bytes_eq_iff _ _).0 hit))) in
          cc (ih, gone)
      | inr miss ↦ rw miss ih
    ]

-- What `Match` is meant to find: a behavior with the scheme, host, port, method and path of the
-- request.
abbrev pub matches : Target → DependencyBehavior → Bool
matches t b =
    bytes_eq b.scheme t.scheme
    && bytes_eq b.host t.host
    && eq_int b.port (pos t.port)
    && bytes_eq b.method t.method
    && bytes_eq b.path t.path

matches→eq :
    (t : Target) (b : DependencyBehavior) → matches t b ≡ true → behavior_key b ≡ target_key t
matches→eq t b h =
    let e1 = (bytes_eq_iff b.scheme t.scheme).0 (ground arith) in
    let e2 = (bytes_eq_iff b.host t.host).0 (ground arith) in
    let e3 = (eq_int_iff b.port (pos t.port)).0 (ground arith) in
    let e4 = (bytes_eq_iff b.method t.method).0 (ground arith) in
    let e5 = (bytes_eq_iff b.path t.path).0 (ground arith) in
    λ i. matcher_key (e1 i) (e2 i) (e3 i) (e4 i) (e5 i)

eq→matches :
    (t : Target) (b : DependencyBehavior) (n : ℕ)
    → b.port ≡ pos n
    → target_of b n ≡ t
    → matches t b ≡ true
eq→matches t b n p e =
    let e1 = (bytes_eq_iff b.scheme t.scheme).1 (ap (λ (t : Target). t.scheme) e) in
    let e2 = (bytes_eq_iff b.host t.host).1 (ap (λ (t : Target). t.host) e) in
    let e3 = (eq_int_iff b.port (pos t.port)).1 (p ∙ ap (λ (t : Target). pos t.port) e) in
    let e4 = (bytes_eq_iff b.method t.method).1 (ap (λ (t : Target). t.method) e) in
    let e5 = (bytes_eq_iff b.path t.path).1 (ap (λ (t : Target). t.path) e) in
    rw (e1, e2, e3, e4, e5)

module _ (ext : Externals) (laws : IpLaws ext) (t : Target) (free : IsZeroFree t) where
  with_key-matches :
      (b : DependencyBehavior) → IsRoutable ext b → with_key (target_key t) b ≡ matches t b
  with_key-matches b r = elim (Bool-cases (with_key (target_key t) b)) [
    | inl hit ↦
        let (n, p) = r.port_pos in
        let key : target_key (target_of b n) ≡ target_key t =
          ap (λ (q : ℤ). matcher_key b.scheme b.host q b.method b.path) (sym p)
          ∙ (bytes_eq_iff _ _).0 hit in
        hit
        ∙ sym (
            eq→matches t b n p (
              target_key-injective (target_of b n) t (target_of-IsZeroFree ext laws b r n) free
                key))
    | inr miss ↦ elim (Bool-cases (matches t b)) [
      | inl yes' ↦ cc ((bytes_eq_iff (behavior_key b) (target_key t)).1 (matches→eq t b yes'))
      | inr no' ↦ miss ∙ sym no'
    ]
  ]

  pub find-matches :
      (seen : List Bytes) (bs : List DependencyBehavior)
      → Accepted ext seen bs
      → find (with_key (target_key t)) bs ≡ find (matches t) bs
  unfolding find
  find-matches seen [] acc = refl
  find-matches seen (b ∷ bs) acc =
      rw (with_key-matches b acc.0, find-matches (behavior_key b ∷ seen) bs acc.2)
