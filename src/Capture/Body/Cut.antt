-- ===== src/Capture/Body/Cut.antt =====
-- A text that internal/dependencycapture cut at the limit is still captured as text.
use mockingo_agent.Base.{
  ℕ, zero, suc, ◌+◌, ◌-◌, ◌≤◌, ◌<◌, true, false, some, [], ◌∷◌, ◌++◌, Bytes, codes, length, take,
  length-take, length-append, take-append, take-length, take-take, take-le, ltb, pos, lt_int, ◌≡◌,
  refl, arith, inl, inr, Bool-cases, ap, ap₂, sym, ◌∙◌, min, append-nil, subst,
}
use mockingo_agent.Base.Utf8.{valid_utf8}
use mockingo_agent.Base.Utf8.Prefix.{Cut, valid_utf8-take}
use mockingo_agent.Protocol.Message.{HeaderMap, CapturedBody}
use mockingo_agent.Capture.Headers.{header_get}
use mockingo_agent.Capture.Body.{
  Decoders, normalized_content_type, is_textual_content_type, has_content_encoding, trim_partial,
  finish_body, captured_body, text_body,
}

-- The loop without its first `removed` bytes.
abbrev shorter : ℕ → Bytes → Bytes
shorter removed p = take (length p - removed) p

trim_partial-stop :
    (rounds removed : ℕ) (p : Bytes)
    → removed ≤ length p
    → valid_utf8 (shorter removed p) ≡ true
    → trim_partial (suc rounds) removed p ≡ some (shorter removed p)
unfolding trim_partial
trim_partial-stop rounds removed p room ok = ground arith

trim_partial-more :
    (rounds removed : ℕ) (p : Bytes)
    → removed ≤ length p
    → valid_utf8 (shorter removed p) ≡ false
    → trim_partial (suc rounds) removed p ≡ trim_partial rounds (removed + 1) p
unfolding trim_partial
trim_partial-more rounds removed p room bad = ground arith

-- The loop finds a valid candidate if one of its rounds has it.
trim_partial-finds :
    (rounds k removed : ℕ) (p : Bytes)
    → k < rounds
    → removed + k ≤ length p
    → valid_utf8 (shorter (removed + k) p) ≡ true
    → (q : Bytes) × (trim_partial rounds removed p ≡ some q)
trim_partial-finds zero k removed p h l v = elim h [ ]
trim_partial-finds (suc rounds) zero removed p h l v = (
  shorter removed p,
  trim_partial-stop rounds removed p (omega arith)
      (subst (λ n. valid_utf8 (shorter n p) ≡ true) (omega arith) v),
)
trim_partial-finds (suc rounds) (suc k) removed p h l v =
    elim (Bool-cases (valid_utf8 (shorter removed p))) [
      | inl ok ↦ (shorter removed p, trim_partial-stop rounds removed p (omega arith) ok)
      | inr bad ↦
          let (q, e) =
            trim_partial-finds rounds k (removed + 1) p (omega arith) (omega arith)
              (subst (λ n. valid_utf8 (shorter n p) ≡ true) (omega arith) v) in
          (q, trim_partial-more rounds removed p (omega arith) bad ∙ e)
    ]

-- What the loop keeps is a prefix, shorter by fewer bytes than the rounds count to.
trim_partial-keeps :
    (rounds removed : ℕ) (p q : Bytes)
    → trim_partial rounds removed p ≡ some q
    → (q ≡ take (length q) p) × (length p < length q + removed + rounds)
unfolding trim_partial
trim_partial-keeps zero removed p q e = cc
trim_partial-keeps (suc rounds) removed p q e = ground (
  arith,
  take-length (length p - removed) p,
  length-take (length p - removed) p,
  trim_partial-keeps rounds (removed + 1) p q,
)

-- The copy is the text's own beginning, and misses at most the bytes of one character.
abbrev pub Kept : Bytes → ℕ → CapturedBody → Type 0
Kept full n body =
    (body.captured ≡ true)
    × (body.content ≡ take (length body.content) full)
    × (min n (length full) ≤ length body.content + 3)

trim-Kept :
    (content_type full q : Bytes) (n : ℕ)
    → trim_partial 3 1 (take n full) ≡ some q
    → Kept full n (text_body content_type (pos (length full)) q)
trim-Kept content_type full q n e =
    let (whole, near) = trim_partial-keeps 3 1 (take n full) q e in
    let size = length-take n full in
    (
      refl,
      whole
          ∙ take-take (length q) n full
              (omega (arith, size, ap length whole, length-take (length q) (take n full))),
      omega (arith, size, near),
    )

take-whole : (n : ℕ) (s : Bytes) → length s ≤ length (take n s) → take n s ≡ s
take-whole n s h = take-le n s (omega (arith, length-take n s))

cut_inside :
    (n : ℕ) (full : Bytes)
    → valid_utf8 full ≡ true
    → valid_utf8 (take n full) ≡ false
    → lt_int (pos (length (take n full))) (pos (length full)) ≡ true
cut_inside n full v bad = elim (Bool-cases (ltb (length (take n full)) (length full))) [
  | inl less ↦ less
  | inr whole ↦ cc (sym v ∙ ap valid_utf8 (sym (take-whole n full (ground (arith, whole)))) ∙ bad)
]

trim_partial-cut :
    (p : Bytes)
    → Cut 0 0x80 0xbf p
    → valid_utf8 p ≡ false
    → (q : Bytes) × (trim_partial 3 1 p ≡ some q)
trim_partial-cut p c bad = go c.front c.back c.joined c.short c.front_valid
  where
    go :
        (front back : Bytes)
        → p ≡ front ++ back
        → length back ≤ 3
        → valid_utf8 front ≡ true
        → (q : Bytes) × (trim_partial 3 1 p ≡ some q)
    go front [] e short v = cc (ap valid_utf8 (e ∙ append-nil front), v, bad)
    go front (b ∷ back) e short v =
        let size : length p ≡ length front + suc (length back) =
          ap length e ∙ length-append front (b ∷ back) in
        trim_partial-finds 3 (length back) 1 p (omega arith) (omega (arith, size)) (
          subst (λ s. valid_utf8 s ≡ true)
            (sym (take-append front (b ∷ back))
              ∙ ap₂ (λ (m : ℕ) (s : Bytes). take m s) (omega (arith, size)) (sym e))
            v)

finish-cut :
    (content_type full : Bytes) (n : ℕ)
    → valid_utf8 full ≡ true
    → Kept full n (finish_body content_type (pos (length full)) (take n full))
unfolding finish_body
finish-cut content_type full n v = elim (Bool-cases (valid_utf8 (take n full))) [
  | inl ok ↦ rw ok (refl, sym (take-length n full), omega (arith, length-take n full))
  | inr bad ↦
      let (q, e) = trim_partial-cut (take n full) (valid_utf8-take n full v) bad in
      rw (bad, cut_inside n full v bad, e) (trim-Kept content_type full q n e)
]

-- A body of well-formed UTF-8 with a textual media type and no content encoding, of which the
-- preview is the part up to the limit, is captured: the copy is marked as captured, its content is
-- the beginning of the body, and it lacks at most three bytes of the part up to the limit.
pub captured_body-cut :
    (dec : Decoders) (headers : HeaderMap) (full : Bytes) (limit : ℕ)
    → is_textual_content_type
        (normalized_content_type dec (header_get (codes "Content-Type") headers))
      ≡ true
    → has_content_encoding (header_get (codes "Content-Encoding") headers) ≡ false
    → valid_utf8 full ≡ true
    → Kept full limit (captured_body dec headers (take limit full) (pos (length full)) limit)
unfolding captured_body
captured_body-cut dec headers full limit text plain v =
    rw (text, plain, take-take limit limit full (omega arith)) (finish-cut _ full limit v)
