-- ===== src/Lib.antt =====
-- The Mockingo agent: the program that joins a local server to a gateway through a tunnel, and that
-- records or replays what an application asks of its dependencies.
--
-- The parts of the program that are modelled, and how they interact.
-- tunnelprotocol: the messages between agent and gateway. Protocol/Message has the constants, the
-- error values and the records; Protocol/Text the tests on tokens, paths, hosts and headers;
-- Protocol/Validation has Validate; Protocol/Codec has Encode, Decode and ReadBody.
-- internal/dependencycapture: Capture/Behaviors is the store of replay behaviors (behaviors.go),
-- which uses Protocol/Validation on every snapshot. Capture/Body, Capture/Redact and
-- Capture/Preview are capture.go: the inspection copy of a body, the redaction of headers and of
-- queries, and the observers of streams. proxy.go is in Capture/Target (the target of a request),
-- Capture/HopHeaders (the filter of hop-by-hop headers, over http.Header's canonical keys),
-- Capture/Proxy (forward and replay, which join the store, the observers, the redaction and the
-- inspection copies, and give what is answered, what is sent upstream and the interaction for Emit)
-- and Capture/Proxy/Connect (NewProxy, ServeHTTP and the handlers of CONNECT, whose uses of
-- connections are a list of effects).
-- Capture/Uploader is uploader.go: Enqueue, the writer and the reader of serveConnection. Its child
-- Queue lets senders and writer act in any order, Reader joins the reader to the store of behaviors
-- as internal/cli/dependency_runtime.go does, and Loop is Run, a round at a time.
-- internal/agent/agent.go: Agent/Loop is runTicket, as a function `step` on its local variables
-- and a record of what the surroundings answer in one round; `run` is the loop over a list of such
-- rounds. Agent/Gateway reads the gateway's answers, Agent/Backoff has the delays, which
-- internal/dependencycapture/uploader.go has under another name, and Agent/Request is
-- handleRequest, which filters headers with ForwardHeaders (internal/tunnelhttp/headers.go) and
-- reads bodies with Protocol/Codec. Agent/Serve is serveConnection: a relation of steps, each a
-- read, the end of the goroutine of a request, or the return, on the requests in flight.
-- internal/oauth: Oauth/Credentials has the interface of a credential store and FallbackStore
-- over two of them; its children Keyring and Files are KeyringStore and FileStore over the calls of
-- the keyring and of the file system. Oauth/Metadata has the checks of a server's metadata and
-- Discover with its cache, Oauth/Tokens the parsing of token responses (oauth.go), with the
-- credentials that internal/cli/auth_commands.go makes of them.
-- internal/apiclient: Client/Sessions has the checks of the sessions that the backend issues
-- (tunnel_session.go, dependency_capture_session.go), Client/Requests the credentials of a request
-- and its second attempt (client.go), as functions of what the store, the clock and the server
-- answer.
-- internal/cli/args.go: Cli/Args has what ParseRun checks once the flags are parsed.
-- internal/naming/naming.go: Naming.
-- Base has what these share: Go's strings as lists of bytes, signed integers, maps as association
-- lists, UTF-8, decimal numbers and query escapes.
--
-- Conventions. A Go string or byte slice is the list of its bytes. An `int` or `int64` is an ℤ;
-- sums and doublings of delays wrap as in Go, and other sums stay far below the limits, since they
-- are bounded by lengths of data in memory. A slice or a map that may be nil is an Option. A map is
-- an association list, in the order in which `range` meets its entries. The loops over lists are
-- structural recursions and need no fuel; the loop that drops bytes of a cut character has the
-- source's own bound of three rounds; the digits of a number are computed with as much fuel as the
-- number and one.
--
-- Case and space are those of ASCII. Outside ASCII strings.ToLower, strings.ToUpper and
-- strings.TrimSpace do more, which the model leaves out.
--
-- Code that is not in the repository is a parameter: encoding/json (Json), uuid.Validate and
-- net.ParseIP (Externals), the decoders of compressed streams and the parser of media types
-- (Decoders), base64, url.ParseRequestURI and the HTTP client (Local; a parser of URLs in
-- Client/Sessions, and one in Oauth/Metadata), net.SplitHostPort and strconv.Atoi (Authorities),
-- the upstream server of the proxy, rand.Int63n (a field of a round), the keyring (Keyring) and the
-- file system (FileSystem). What is assumed of it stands in the records IpLaws, IsUp and IsWriting
-- and in the hypotheses of the theorems.
--
-- Not modelled: logging, sockets and the encryption of connections, what net/http makes of what a
-- handler gives to its ResponseWriter, the panic of rand.Int63n when a delay is negative, the
-- listener of one connection in proxy.go, the certificates, the commands, the callback of the
-- login, the stored configuration and the child processes.
pub mod Base
pub mod Protocol
pub mod Naming
pub mod ForwardHeaders
pub mod Capture
pub mod Agent
pub mod Oauth
pub mod Client
pub mod Cli
pub mod Tests
