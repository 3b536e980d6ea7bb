-- ===== src/Base/Split.antt =====
-- Laws of `split` and `join`: text divided at a separator, and put together again.
use mockingo_agent.Base.Tests.{◌==◌, ==_iff, Bool-cases, or_false}
use mockingo_agent.Base.Lists.{All, some_of}
use mockingo_agent.Base.Strings.{Bytes, has, ends_with, Without, split, join, join_rest}
use Prim.Native.Nat.{ℕ}
use mathlib.Core.Path.{◌≡◌, refl, ap, sym, subst, ◌∙◌}
use mathlib.Core.Logic.{inl, inr}
use mathlib.Core.Bool.{Bool, true, false}
use mathlib.Core.List.{List, [], ◌∷◌, ◌++◌, append-nil}
use native.Mathlib.Omega.{arith}

module _ (sep : ℕ) where
  pub split-cons : (s : Bytes) → (w : Bytes) × (ws : List Bytes) × (split sep s ≡ w ∷ ws)
  unfolding split
  split-cons [] = ([], [], refl)
  split-cons (c ∷ s) =
      let (w, ws, e) = split-cons s in
      elim (Bool-cases (c == sep)) [
        | inl hit ↦ ([], w ∷ ws, rw (hit, e))
        | inr miss ↦ (c ∷ w, ws, rw (miss, e))
      ]

  -- Joining the parts of a text gives the text.
  pub join-split : (s : Bytes) → join sep (split sep s) ≡ s
  unfolding split join
  join-split [] = refl
  join-split (c ∷ s) =
      let (w, ws, e) = split-cons s in
      let ih : join sep (w ∷ ws) ≡ s = subst (λ l. join sep l ≡ s) e (join-split s) in
      elim (Bool-cases (c == sep)) [
        | inl hit ↦ rw (hit, e) (ground (arith, ih))
        | inr miss ↦ rw (miss, e) (ap (λ (t : Bytes). c ∷ t) ih)
      ]

  -- No part has the separator.
  pub split-Without : (s : Bytes) → All (Without sep) (split sep s)
  unfolding split has
  split-Without [] = (refl, tt)
  split-Without (c ∷ s) =
      let (w, ws, e) = split-cons s in
      let ih : All (Without sep) (w ∷ ws) = subst (λ l. All (Without sep) l) e (split-Without s) in
      elim (Bool-cases (c == sep)) [
        | inl hit ↦ rw (hit, e) (refl, ih)
        | inr miss ↦ rw (miss, e) (rw miss ih.0, ih.1)
      ]

  split-append : (w s : Bytes) → Without sep w → split sep (w ++ sep ∷ s) ≡ w ∷ split sep s
  unfolding split has
  split-append [] s h = rw (same sep)
    where
      same : (n : ℕ) → (n == n) ≡ true
      same n = ground arith
  split-append (c ∷ w) s h =
      let (a, b) = or_false (c == sep) (has sep w) h in rw (a, split-append w s b)

  split_self : (w : Bytes) → Without sep w → split sep w ≡ w ∷ []
  unfolding split has
  split_self [] h = refl
  split_self (c ∷ w) h = let (a, b) = or_false (c == sep) (has sep w) h in rw (a, split_self w b)

  split-join_rest :
      (w : Bytes) (ws : List Bytes)
      → Without sep w
      → All (Without sep) ws
      → split sep (w ++ join_rest sep ws) ≡ w ∷ ws
  split-join_rest w [] h hs = rw append-nil (split_self w h)
  split-join_rest w (v ∷ ws) h hs =
      rw (split-append w (v ++ join_rest sep ws) h, split-join_rest v ws hs.0 hs.1)

  -- Splitting what was joined gives the parts, if there is one and none has the separator.
  pub split-join :
      (w : Bytes) (ws : List Bytes)
      → Without sep w
      → All (Without sep) ws
      → split sep (join sep (w ∷ ws)) ≡ w ∷ ws
  unfolding join
  split-join = split-join_rest

  -- A test that no part passes and the separator fails is passed nowhere in the text.
  pub some_of-split :
      (p : ℕ → Bool)
      → p sep ≡ false
      → (s : Bytes) → All (λ w. some_of p w ≡ false) (split sep s)
      → some_of p s ≡ false
  unfolding split some_of
  some_of-split p out [] h = refl
  some_of-split p out (c ∷ s) h =
      let (w, ws, e) = split-cons s in
      let back : All (λ w. some_of p w ≡ false) (w ∷ ws) → some_of p s ≡ false =
        λ g. some_of-split p out s (subst (λ l. All (λ w. some_of p w ≡ false) l) (sym e) g) in
      elim (Bool-cases (c == sep)) [
        | inl hit ↦
            let g : All (λ w. some_of p w ≡ false) ([] ∷ w ∷ ws) = rw (hit, e) at h in
            rw ((==_iff c sep).0 hit, out) (back g.1)
        | inr miss ↦
            let g : All (λ w. some_of p w ≡ false) ((c ∷ w) ∷ ws) = rw (miss, e) at h in
            let (a, b) = or_false (p c) (some_of p w) g.0 in rw a (back (b, g.1))
      ]

  abbrev LastFilled : List Bytes → Type 0
  LastFilled [] = Unit
  LastFilled (w ∷ []) = w ≡ [] → ⊥
  LastFilled (w ∷ v ∷ ws) = LastFilled (v ∷ ws)

  LastFilled-All : (ws : List Bytes) → All (λ w. w ≡ [] → ⊥) ws → LastFilled ws
  LastFilled-All [] h = tt
  LastFilled-All (w ∷ []) h = h.0
  LastFilled-All (w ∷ v ∷ ws) h = LastFilled-All (v ∷ ws) h.1

  LastFilled-shorter :
      (c d : ℕ) (s w : Bytes) (ws : List Bytes)
      → split sep (d ∷ s) ≡ w ∷ ws
      → LastFilled ((c ∷ w) ∷ ws)
      → LastFilled (w ∷ ws)
  LastFilled-shorter c d s w [] e h = λ q. cc (
    subst (λ l. join sep l ≡ d ∷ s) (e ∙ ap (λ (t : Bytes). t ∷ []) q) (join-split (d ∷ s)),
    joined,
  )
    where
      joined : join sep ([] ∷ []) ≡ []
      joined = unfold join in refl
  LastFilled-shorter c d s w (v ∷ ws) e h = h

  ends_with-last : (s : Bytes) → LastFilled (split sep s) → ends_with sep s ≡ false
  unfolding split ends_with
  ends_with-last [] h = refl
  ends_with-last (c ∷ []) h = elim (Bool-cases (c == sep)) [
    | inl hit ↦ let g : LastFilled ([] ∷ [] ∷ []) = rw hit at h in absurd (g refl)
    | inr miss ↦ miss
  ]
  ends_with-last (c ∷ d ∷ s) h =
      let (w, ws, e) = split-cons (d ∷ s) in
      let back : LastFilled (w ∷ ws) → ends_with sep (d ∷ s) ≡ false =
        λ g. ends_with-last (d ∷ s) (subst LastFilled (sym e) g) in
      elim (Bool-cases (c == sep)) [
        | inl hit ↦ let g : LastFilled ([] ∷ w ∷ ws) = rw (hit, e) at h in back g
        | inr miss ↦
            let g : LastFilled ((c ∷ w) ∷ ws) = rw (miss, e) at h in
            back (LastFilled-shorter c d s w ws e g)
      ]

  -- A text whose parts are not empty does not end in the separator.
  pub ends_with-split : (s : Bytes) → All (λ w. w ≡ [] → ⊥) (split sep s) → ends_with sep s ≡ false
  ends_with-split s h = ends_with-last s (LastFilled-All (split sep s) h)
