-- ===== src/Agent/Request/Reply.antt =====
-- What handleRequest of internal/agent/agent.go sends to the local server and to the tunnel.
use mockingo_agent.Base.{
  ℕ, ◌≤◌, false, true, starts_with, Option, none, some, ◌++◌, Bytes, codes, length, is_empty,
  bytes_eq, ltb, ℤ, pos, eq_int, ◌≡◌, refl, ap, sym, subst, arith, Bool-cases, inl, inr, ◌⊎◌,
}
use mockingo_agent.Base.Decimal.{itoa}
use mockingo_agent.Protocol.Message.{
  Message, ProtocolError, HeaderMap, type_error, type_response, max_body_size,
}
use mockingo_agent.Protocol.Text.{Externals}
use mockingo_agent.Protocol.Validation.{validate}
use mockingo_agent.Protocol.Codec.{Result, ok, err, Stream, read_body}
use mockingo_agent.Agent.Request.{
  Local, LocalRequest, Exchange, answered, timed_out, unreachable, error_reply, body_reply,
  exchange_reply, with_uri, with_body, handle_request, Uri, local_request, local_url, bad_uri,
}

-- The reply answers the request, and is a message that the protocol's validator accepts.
pub record Answers (ext : Externals) (message reply : Message) : Type 0 where
  pub same_request : reply.request_id ≡ message.request_id
  pub of_type : (reply.type ≡ type_response) ⊎ (reply.type ≡ type_error)
  pub valid : validate ext reply ≡ none

module _ (ext : Externals) (lib : Local) (message : Message)
    (id : is_empty message.request_id ≡ false) where
  error_reply-Answers :
      (code : Bytes) → is_empty code ≡ false → Answers ext message (error_reply message code)
  unfolding validate bytes_eq
  error_reply-Answers code c = record {
    same_request = refl;
    of_type = inr refl;
    valid = rw (id, c);
  }

  body_reply-Answers :
      (status : ℤ) (headers : HeaderMap) (r : Result Bytes)
      → eq_int status (pos 0) ≡ false
      → Answers ext message (body_reply lib message status headers r)
  unfolding validate bytes_eq
  body_reply-Answers status headers (ok body) s = record {
    same_request = refl;
    of_type = inl refl;
    valid = rw (id, s);
  }
  body_reply-Answers status headers (err ProtocolError.body_too_large) s =
      error_reply-Answers (codes "response_too_large") refl
  body_reply-Answers status headers (err e) s =
      error_reply-Answers (codes "local_response_error") refl

  exchange_reply-Answers :
      (x : Exchange)
      → ((status : ℤ) (headers : HeaderMap) (body : Stream)
          → x ≡ answered status headers body
          → eq_int status (pos 0) ≡ false)
      → Answers ext message (exchange_reply lib message x)
  exchange_reply-Answers timed_out h = error_reply-Answers (codes "timeout") refl
  exchange_reply-Answers unreachable h = error_reply-Answers (codes "local_unreachable") refl
  exchange_reply-Answers (answered status headers body) h =
      body_reply-Answers status headers (read_body body) (h status headers body refl)

  refused-Answers : Answers ext message (error_reply message (codes "invalid_request"))
  refused-Answers = error_reply-Answers (codes "invalid_request") refl

  module _ (port : ℤ)
      (status : (q : LocalRequest) (status : ℤ) (headers : HeaderMap) (body : Stream)
        → lib.exchange q ≡ answered status headers body
        → eq_int status (pos 0) ≡ false) where
    with_uri-Answers :
        (body : Bytes) (o : Option Uri) → Answers ext message (with_uri lib port message body o).1
    with_uri-Answers body none = refused-Answers
    with_uri-Answers body (some path) = elim (Bool-cases (bad_uri path)) [
      | inl bad ↦ rw bad refused-Answers
      | inr good ↦ elim (Bool-cases (lib.valid_request message.method (local_url port path))) [
        | inr wrong ↦ rw (good, wrong) refused-Answers
        | inl right ↦
            let q = local_request port message body path in
            rw (good, right) (exchange_reply-Answers (lib.exchange q) (status q))
      ]
    ]

    with_body-Answers : (o : Option Bytes) → Answers ext message (with_body lib port message o).1
    with_body-Answers none = refused-Answers
    with_body-Answers (some body) = elim (Bool-cases (ltb max_body_size (length body))) [
      | inl large ↦ rw large refused-Answers
      | inr fits ↦ rw fits (with_uri-Answers body (lib.parse_request_uri message.path))
    ]

-- Every request that has an identifier is answered by one message with this identifier, a response
-- or an error, that passes the validation of the protocol. The local server's responses have a
-- status other than 0, as HTTP responses do.
pub handle_request-Answers :
    (ext : Externals) (lib : Local) (port : ℤ) (message : Message)
    → is_empty message.request_id ≡ false
    → ((q : LocalRequest) (status : ℤ) (headers : HeaderMap) (body : Stream)
        → lib.exchange q ≡ answered status headers body
        → eq_int status (pos 0) ≡ false)
    → Answers ext message (handle_request lib port message).1
unfolding handle_request
handle_request-Answers ext lib port message id status =
    with_body-Answers ext lib message id port status (lib.decode_base64 message.body_base64)

module _ (lib : Local) (message : Message) where
  body_reply-request_id :
      (status : ℤ) (headers : HeaderMap) (r : Result Bytes)
      → (body_reply lib message status headers r).request_id ≡ message.request_id
  body_reply-request_id status headers (ok body) = refl
  body_reply-request_id status headers (err ProtocolError.body_too_large) = refl
  body_reply-request_id status headers (err e) = refl

  exchange_reply-request_id :
      (x : Exchange) → (exchange_reply lib message x).request_id ≡ message.request_id
  exchange_reply-request_id timed_out = refl
  exchange_reply-request_id unreachable = refl
  exchange_reply-request_id (answered status headers body) =
      body_reply-request_id status headers (read_body body)

  with_uri-request_id :
      (port : ℤ) (body : Bytes) (o : Option Uri)
      → (with_uri lib port message body o).1.request_id ≡ message.request_id
  with_uri-request_id port body none = refl
  with_uri-request_id port body (some path) = elim (Bool-cases (bad_uri path)) [
    | inl bad ↦ rw bad refl
    | inr good ↦ elim (Bool-cases (lib.valid_request message.method (local_url port path))) [
      | inr wrong ↦ rw (good, wrong) refl
      | inl right ↦
          rw (good, right)
            (exchange_reply-request_id (lib.exchange (local_request port message body path)))
    ]
  ]

  with_body-request_id :
      (port : ℤ) (o : Option Bytes)
      → (with_body lib port message o).1.request_id ≡ message.request_id
  with_body-request_id port none = refl
  with_body-request_id port (some body) = elim (Bool-cases (ltb max_body_size (length body))) [
    | inl large ↦ rw large refl
    | inr fits ↦ rw fits (with_uri-request_id port body (lib.parse_request_uri message.path))
  ]

-- An answer has the identifier of its request.
pub handle_request-request_id :
    (lib : Local) (port : ℤ) (message : Message)
    → (handle_request lib port message).1.request_id ≡ message.request_id
unfolding handle_request
handle_request-request_id lib port message =
    with_body-request_id lib message port (lib.decode_base64 message.body_base64)

-- The local request that a target leads to.
abbrev LocalTarget : ℤ → LocalRequest → Uri → Type 0
LocalTarget port q path =
    (bad_uri path ≡ false)
    × (q.url ≡ codes "http://127.0.0.1:" ++ (itoa port ++ path.request_uri))
    × (length q.body ≤ max_body_size)

with_uri-local :
    (lib : Local) (port : ℤ) (message : Message) (body : Bytes) (o : Option Uri) (q : LocalRequest)
    → length body ≤ max_body_size
    → (with_uri lib port message body o).0 ≡ some q
    → (path : Uri) × (o ≡ some path) × LocalTarget port q path
with_uri-local lib port message body none q l h = cc
with_uri-local lib port message body (some path) q l h = elim (Bool-cases (bad_uri path)) [
  | inl bad ↦ absurd (nothing (rw bad at h))
  | inr good ↦ elim (Bool-cases (lib.valid_request message.method (local_url port path))) [
    | inr wrong ↦ absurd (nothing (rw (good, wrong) at h))
    | inl right ↦
        let h' : some (local_request port message body path) ≡ some q = rw (good, right) at h in
        let e : local_request port message body path ≡ q = cc h' in
        (
          path,
          refl,
          (
            good,
            sym (ap (λ (r : LocalRequest). r.url) e),
            subst (λ (b : Bytes). length b ≤ max_body_size) (ap (λ (r : LocalRequest). r.body) e) l,
          ),
        )
  ]
]
  where
    nothing : none ≡ some q → ⊥
    nothing e = cc

with_body-local :
    (lib : Local) (port : ℤ) (message : Message) (o : Option Bytes) (q : LocalRequest)
    → (with_body lib port message o).0 ≡ some q
    → (path : Uri) × (lib.parse_request_uri message.path ≡ some path) × LocalTarget port q path
with_body-local lib port message none q h = cc
with_body-local lib port message (some body) q h =
    elim (Bool-cases (ltb max_body_size (length body))) [
      | inl large ↦ absurd (nothing (rw large at h))
      | inr fits ↦
          with_uri-local lib port message body (lib.parse_request_uri message.path) q
            (within max_body_size (length body) fits) (rw fits at h)
    ]
  where
    nothing : none ≡ some q → ⊥
    nothing e = cc

    within : (m n : ℕ) → ltb m n ≡ false → n ≤ m
    within m n e = ground arith

bad_uri-parts :
    (path : Uri)
    → bad_uri path ≡ false
    → (is_empty path.scheme ≡ true)
      × (is_empty path.host ≡ true)
      × (starts_with b'/' path.path ≡ true)
bad_uri-parts path h = ground arith

-- Whatever a request from the tunnel says, what is sent to the local side goes to the configured
-- port of 127.0.0.1, with the path and query of a target that has no scheme and no host of its own
-- and whose path begins with a slash, and with a body within the limit of the protocol.
pub handle_request-local :
    (lib : Local) (port : ℤ) (message : Message) (q : LocalRequest)
    → (handle_request lib port message).0 ≡ some q
    → (path : Uri) × (lib.parse_request_uri message.path ≡ some path)
      × (is_empty path.scheme ≡ true)
      × (is_empty path.host ≡ true)
      × (starts_with b'/' path.path ≡ true)
      × (q.url ≡ codes "http://127.0.0.1:" ++ (itoa port ++ path.request_uri))
      × (length q.body ≤ max_body_size)
unfolding handle_request
handle_request-local lib port message q h =
    let (path, e, (good, url, size)) =
      with_body-local lib port message (lib.decode_base64 message.body_base64) q h in
    let (scheme, host, slash) = bad_uri-parts path good in (path, e, scheme, host, slash, url, size)
