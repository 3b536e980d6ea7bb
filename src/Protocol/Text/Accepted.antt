-- ===== src/Protocol/Text/Accepted.antt =====
-- What the tests of tunnelprotocol/validation.go on host names and tokens let through.
use mockingo_agent.Base.{
  ℕ, Bool, true, false, ◌||◌, [], ◌∷◌, Bytes, Without, some_of, all_of, split, ends_with, is_lower,
  is_upper, is_digit, ◌==◌, ◌≡◌, refl, inl, inr, ◌⊎◌, arith, has-all_of, all_of-All, All-map,
  some_of-split, some_of-all_of, ends_with-split,
}
use mockingo_agent.Protocol.Text.{
  Externals, valid_http_token, is_token_byte, valid_dependency_host, valid_host_label, is_host_byte,
}

-- What net.ParseIP documents of the texts that it accepts, as far as the program relies on it:
-- hexadecimal digits, dots and colons, with no dot at the end.
abbrev pub is_ip_byte : ℕ → Bool
is_ip_byte c = is_digit c || is_lower c || is_upper c || (c == b'.') || (c == b':')

pub record IpLaws (ext : Externals) : Type 0 where
  pub ip_bytes : (s : Bytes) → ext.parse_ip s ≡ true → all_of is_ip_byte s ≡ true
  pub ip_end : (s : Bytes) → ext.parse_ip s ≡ true → ends_with b'.' s ≡ false

pub valid_http_token-Without : (s : Bytes) → valid_http_token s ≡ true → Without 0 s
unfolding valid_http_token
valid_http_token-Without [] h = ground arith
valid_http_token-Without (c ∷ s) h = has-all_of 0 is_token_byte (c ∷ s) refl h

abbrev pub is_marker : ℕ → Bool
is_marker c = (c == 0) || (c == b'[') || (c == b']')

label_bytes : (l : Bytes) → valid_host_label l ≡ true → some_of is_marker l ≡ false
unfolding valid_host_label
label_bytes l h = some_of-all_of is_host_byte is_marker (λ c e. ground arith) l (ground arith)

label_end : (l : Bytes) → valid_host_label l ≡ true → (l ≡ [] → ⊥)
unfolding valid_host_label
label_end [] h e = ground arith
label_end (c ∷ l) h e = cc

-- The two ways in which a host is accepted.
valid_dependency_host-cases :
    (ext : Externals) (host : Bytes)
    → valid_dependency_host ext host ≡ true
    → (ext.parse_ip host ≡ true) ⊎ (all_of valid_host_label (split b'.' host) ≡ true)
unfolding valid_dependency_host
valid_dependency_host-cases ext host h = ground arith

module _ (ext : Externals) (laws : IpLaws ext) (host : Bytes)
    (ok : valid_dependency_host ext host ≡ true) where
  -- No zero byte and no bracket.
  pub valid_dependency_host-bytes : some_of is_marker host ≡ false
  valid_dependency_host-bytes = elim (valid_dependency_host-cases ext host ok) [
    | inl ip ↦
        some_of-all_of is_ip_byte is_marker (λ c e. ground arith) host (laws.ip_bytes host ip)
    | inr labels ↦ some_of-split b'.' is_marker refl host (
        All-map (λ l h. label_bytes l h) (split b'.' host)
          (all_of-All valid_host_label (split b'.' host) labels))
  ]

  -- No dot at the end.
  pub valid_dependency_host-end : ends_with b'.' host ≡ false
  valid_dependency_host-end = elim (valid_dependency_host-cases ext host ok) [
    | inl ip ↦ laws.ip_end host ip
    | inr labels ↦ ends_with-split b'.' host (
        All-map (λ l h. label_end l h) (split b'.' host)
          (all_of-All valid_host_label (split b'.' host) labels))
  ]
